-- ===== src/ErrHandler/Tests.antt =====
-- Three errors, the second of which comes too soon for a report.
use structlog.Common.{map, List, [], ◌∷◌, ◌≡◌, refl, codes, arith, ◌+◌}
use structlog.Common.Int.{ℤ, pos}
use structlog.ErrHandler.{initial, default_err_handler}
use structlog.ErrHandler.Spaced.{Error, Sparse, handle_all, handle_all-Sparse}

abbrev error_at : ℤ → Error
error_at now = record { logger_name = codes "app"; text = codes "disk full"; now = now }

abbrev errors : List Error
errors = error_at (pos 5000000000) ∷ error_at (pos 5900000000) ∷ error_at (pos 6000000000) ∷ []

reports_two : map (λ r. r.number) (handle_all errors initial).reports ≡ 3 ∷ 1 ∷ []
unfolding handle_all default_err_handler
reports_two = refl

handle_all-Sparse_example :
    Sparse (pos 0) (handle_all errors initial) × ((handle_all errors initial).err_counter ≡ 0 + 3)
handle_all-Sparse_example =
    handle_all-Sparse (pos 0) errors initial (record { spaced = tt; last = refl }) (omega arith)
