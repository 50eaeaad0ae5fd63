-- ===== src/Registry/Tests.antt =====
-- A run of operations on a registry.
use structlog.Registry.Histories.{perform_all-Sound, perform_all}
use structlog.Common.{List, ◌∷◌, [], ℕ, zero, suc, refl, none, some, codes}
use structlog.Level.{Level}
use structlog.Registry.{create, LoggerObject, Store}
use structlog.Registry.Default.{Sound, Op}

abbrev object : List ℕ → LoggerObject ℕ ℕ
object name = record {
  name = name;
  formatter = 0;
  err_handler = none;
  level = Level.info;
  flush_level = Level.off;
  backtrace = none;
}

-- A new registry, whose first logger is 3.
abbrev fresh : Store ℕ ℕ
fresh zero = object (codes "net")
fresh (suc n) = object []

abbrev history : List (Op ℕ ℕ)
history = Op.register_op 0 ∷ Op.set_default_op (some 0) ∷ Op.drop_op (codes "net") ∷ []

perform_all-Sound_example :
    Sound (perform_all history (create 0 3) fresh).0 (perform_all history (create 0 3) fresh).1
perform_all-Sound_example = perform_all-Sound history 0 3 fresh refl
