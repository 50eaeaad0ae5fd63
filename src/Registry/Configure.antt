-- ===== src/Registry/Configure.antt =====
-- How a new logger is configured.
use structlog.Common.{text_eq_refl, text_eq, ◌∙◌, ap, some, none, refl, true, ◌≡◌}
use structlog.Level.{Level}
use structlog.Registry.{
  ℕ, Option, LoggerObject, Map, Store, Registry, find, erase, assign, update, configured,
  set_levels, new_level, register_logger, initialize_logger, get,
}
use structlog.Registry.Apply.{find-first, update_self}

module _ {F H : Type 0} where
  after_configured :
      (r : ℕ) (reg : Registry F H) (st : Store F H)
      → update st r (configured reg (st r)) r ≡ configured reg (st r)
  after_configured r reg st = update_self st r (configured reg (st r))

  new_level-default :
      (levels : Map Level) (global_level : Option Level) (reg : Registry F H) (st : Store F H)
      (o : LoggerObject F H)
      → (configured (set_levels levels global_level reg st).0 o).level
        ≡ new_level levels global_level o.name reg.global_log_level
  unfolding set_levels
  new_level-default levels global_level reg st o = refl

  initialized :
      (r : ℕ) (reg reg' : Registry F H) (st : Store F H)
      → reg.automatic_registration ≡ true
      → register_logger r reg (update st r (configured reg (st r))) ≡ some reg'
      → initialize_logger r reg st ≡ (true, reg', update st r (configured reg (st r)))
  unfolding initialize_logger
  initialized r reg reg' st auto e = simp (auto, e)

  -- After `set_levels`, a logger that is made under a name that is free is registered under it,
  -- and its level is the one for its name, or else the global level as `set_levels` leaves it.
  pub initialize_logger-set_levels :
      (levels : Map Level) (global_level : Option Level) (reg : Registry F H) (st : Store F H)
      (r : ℕ)
      → reg.automatic_registration ≡ true
      → find (st r).name reg.loggers ≡ none
      → (reg' : Registry F H) × (st' : Store F H) × (initialize_logger r
            (set_levels levels global_level reg st).0
            st
          ≡ (true, reg', st'))
        × (get (st r).name reg' ≡ some r)
        × ((st' r).level ≡ new_level levels global_level (st r).name reg.global_log_level)
  unfolding register_logger set_levels get
  initialize_logger-set_levels levels global_level reg st r auto free = (
    reg2,
    st1,
    initialized r (set_levels levels global_level reg st).0 reg2 st auto added,
    find-first (st r).name (st1 r).name r (erase (st1 r).name reg.loggers)
        (ap (text_eq (st r).name) name_kept ∙ text_eq_refl (st r).name),
    ap (λ o. o.level) (after_configured r (set_levels levels global_level reg st).0 st),
  )
    where
      st1 : Store F H
      st1 = update st r (configured (set_levels levels global_level reg st).0 (st r))

      name_kept : (st1 r).name ≡ (st r).name
      name_kept = ap (λ o. o.name) (after_configured r (set_levels levels global_level reg st).0 st)

      reg2 : Registry F H
      reg2 = record (set_levels levels global_level reg st).0 {
        loggers = assign (st1 r).name r reg.loggers;
      }

      added : register_logger r (set_levels levels global_level reg st).0 st1 ≡ some reg2
      added = rw (register_logger, ap (λ n. find n reg.loggers) name_kept ∙ free)
