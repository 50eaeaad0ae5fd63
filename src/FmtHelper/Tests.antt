-- ===== src/FmtHelper/Tests.antt =====
-- The padding helpers at concrete numbers.
use structlog.Common.{refl, [], codes, ◌≡◌}
use structlog.Common.Int.{pos}
use structlog.FmtHelper.{pad2, pad3, pad6}
use structlog.FmtHelper.Printer.{printer}

prints :
    (pad2 printer (pos 7) [] ≡ codes "07")
    × (pad3 printer 45 (codes "a") ≡ codes "a045")
    × (pad6 printer 120 [] ≡ codes "000120")
unfolding pad2 pad3 pad6 printer
prints = (refl, refl, refl)
