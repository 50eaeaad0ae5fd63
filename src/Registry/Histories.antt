-- ===== src/Registry/Histories.antt =====
-- The operations on a registry, from its constructor on.
use structlog.Common.{ℕ, some, List, [], ◌∷◌, ◌≡◌, refl, ap, subst, some_inj}
use structlog.Registry.{Registry, Store, find, create}
use structlog.Registry.Apply.{Tidy}
use structlog.Registry.Default.{Op, perform, Sound, perform-Sound}

module _ {F H : Type 0} where
  unfoldable pub perform_all : List (Op F H) → Registry F H → Store F H → Registry F H × Store F H
  perform_all [] reg st = (reg, st)
  perform_all (op ∷ ops) reg st = let (reg', st') = perform op reg st in perform_all ops reg' st'

  create-Sound : (f : F) (r : ℕ) (st : Store F H) → (st r).name ≡ [] → Sound (create f r) st
  unfolding create
  create-Sound f r st e = record {
    tidy = Tidy.cons e refl Tidy.nil;
    held = λ i d.
        subst (λ a. find (st a).name (([], r) ∷ []) ≡ some a) (some_inj d)
          (ap (λ n. find n (([], r) ∷ [])) e);
  }

  run-Sound :
      (ops : List (Op F H)) (reg : Registry F H) (st : Store F H)
      → Sound reg st
      → Sound (perform_all ops reg st).0 (perform_all ops reg st).1
  unfolding perform_all
  run-Sound [] reg st h = h
  run-Sound (op ∷ ops) reg st h =
      run-Sound ops (perform op reg st).0 (perform op reg st).1 (perform-Sound op reg st h)

  -- Whatever operations a new registry performs, whether they throw or not, each logger in its
  -- map stands under its own name, no two names are the same, and a default logger is in the
  -- map. The logger that the constructor makes has the empty name.
  pub perform_all-Sound :
      (ops : List (Op F H)) (f : F) (r : ℕ) (st : Store F H)
      → (st r).name ≡ []
      → Sound (perform_all ops (create f r) st).0 (perform_all ops (create f r) st).1
  perform_all-Sound ops f r st e = run-Sound ops (create f r) st (create-Sound f r st e)
