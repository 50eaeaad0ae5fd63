-- ===== src/Padding/Tests.antt =====
-- Paddings at concrete texts.
use structlog.Common.{refl, arith, true, some, ◌≡◌, false, codes}
use structlog.FmtHelper.{append_string_view}
use structlog.Padding.{PaddingInfo, PadSide, Padder, padding_info, with_padder}
use structlog.Padding.Exact.{with_padder-pad_text}

abbrev centered : PaddingInfo
centered = padding_info 7 PadSide.center false

pads :
    (with_padder Padder.scoped_padder 2 centered (append_string_view (codes "ab")) (codes "|")
      ≡ some (codes "|  ab   "))
    × (with_padder Padder.scoped_padder 2
          (padding_info 1 PadSide.left true)
          (append_string_view (codes "ab"))
          (codes "|")
        ≡ some (codes "|a"))
unfolding with_padder append_string_view
pads = (refl, refl)

with_padder-pad_text_example :
    with_padder Padder.scoped_padder 2 centered (append_string_view (codes "ab")) (codes "|")
    ≡ some (codes "|  ab   ")
with_padder-pad_text_example = with_padder-pad_text centered (codes "ab") (codes "|") (omega arith)
