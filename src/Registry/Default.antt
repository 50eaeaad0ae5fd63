-- ===== src/Registry/Default.antt =====
-- The map of loggers and the default logger, through every operation of the registry.
use structlog.Common.{
  true, text_eq_refl, Bool, if◌then◌else◌, Option, ap₂, ap, some_inj, subst, sym, none_ne_some, inr,
  false, inl, Option-cases, some, none, text_eq, ◌∙◌, ◌≡◌, Bool-cases, refl,
}
use structlog.Common.{◌∷◌, []}
use structlog.Level.{Level}
use structlog.Registry.{
  ℕ, List, LoggerObject, Map, Store, Registry, find, erase, assign, update, configured, apply_all,
  set_levels, set_level, flush_on, set_formatter, set_error_handler, enable_backtrace,
  disable_backtrace, register_logger, initialize_logger, put_default, set_default_logger,
  drop_logger, drop_all, set_automatic_registration,
}
use structlog.Registry.Maps.{find-erase_self, find-erase-none, find-erase_ne, find-assign_ne}
use structlog.Registry.Apply.{
  Tidy, find-first, true_ne_false, update-name, Tidy-update, apply_all-Tidy,
}

-- The operations that the registry offers for its loggers.
pub data Op (F H : Type 0) : Type 0 where
  register_op initialize_op : ℕ → Op F H
  set_default_op : Option ℕ → Op F H
  drop_op : List ℕ → Op F H
  drop_all_op disable_backtrace_op : Op F H
  set_level_op flush_on_op : Level → Op F H
  set_levels_op : Map Level → Option Level → Op F H
  set_formatter_op : F → Op F H
  set_error_handler_op : Option H → Op F H
  enable_backtrace_op : ℕ → Op F H
  set_automatic_registration_op : Bool → Op F H

module _ {F H : Type 0} where
  Tidy-erase : (st : Store F H) (k : List ℕ) {m : Map ℕ} → Tidy st m → Tidy st (erase k m)
  Tidy-erase st k Tidy.nil = Tidy.nil
  Tidy-erase st k (Tidy.cons {k = j} {r = r} {m = m} e d t) = elim (Bool-cases (text_eq k j)) [
    | inl u ↦ rw u (Tidy-erase st k t)
    | inr u ↦ rw u (Tidy.cons e (find-erase-none k j m d) (Tidy-erase st k t))
  ]

  Tidy-assign : (st : Store F H) (r : ℕ) {m : Map ℕ} → Tidy st m → Tidy st (assign (st r).name r m)
  Tidy-assign st r {m} t =
      Tidy.cons refl (find-erase_self (st r).name m) (Tidy-erase st (st r).name t)

  -- The loggers stand under their own, different names, and a default logger is one of them.
  pub record Sound (reg : Registry F H) (st : Store F H) : Type 0 where
    pub tidy : Tidy st reg.loggers
    pub held : (r : ℕ) → reg.default_logger ≡ some r → find (st r).name reg.loggers ≡ some r

  -- An operation that changes only the objects, and not their names.
  Sound-apply_all :
      (f : List ℕ → LoggerObject F H → LoggerObject F H)
      → ((k : List ℕ) (o : LoggerObject F H) → (f k o).name ≡ o.name)
      → (reg reg' : Registry F H) (st : Store F H) → reg'.loggers ≡ reg.loggers
      → reg'.default_logger ≡ reg.default_logger
      → Sound reg st
      → Sound reg' (apply_all f reg.loggers st)
  unfolding apply_all
  Sound-apply_all f named reg reg' st el ed h = record {
    tidy =
        subst (Tidy (apply_all f reg.loggers st)) (sym el)
          (apply_all-Tidy f named reg.loggers reg.loggers st h.tidy);
    held = λ r e. ap₂ find (names reg.loggers st r) el ∙ h.held r (sym ed ∙ e);
  }
    where
      names : (m : Map ℕ) (st : Store F H) (i : ℕ) → (apply_all f m st i).name ≡ (st i).name
      names [] st i = refl
      names ((k, r) ∷ m) st i = names m (update st r (f k (st r))) i ∙ update-name f named st k r i

  Sound-register :
      (r : ℕ) (reg reg' : Registry F H) (st : Store F H)
      → Sound reg st
      → register_logger r reg st ≡ some reg'
      → Sound reg' st
  unfolding register_logger
  Sound-register r reg reg' st h e = elim (Option-cases (find (st r).name reg.loggers)) [
    | inr (old, f) ↦ absurd (none_ne_some (sym (refused old f) ∙ e))
    | inl f ↦
        subst (λ g. Sound g st) (some_inj (sym (added f) ∙ e))
          (record {
            tidy = Tidy-assign st r h.tidy;
            held = λ i ei.
                find-assign_ne (st r).name (st i).name r reg.loggers
                  (λ z. none_ne_some (sym f ∙ ap (λ n. find n reg.loggers) (sym z) ∙ h.held i ei))
                ∙ h.held i ei;
          })
  ]
    where
      refused :
          (old : ℕ) → find (st r).name reg.loggers ≡ some old → register_logger r reg st ≡ none
      refused old f = rw (register_logger, f)

      added :
          find (st r).name reg.loggers ≡ none
          → register_logger r reg st
            ≡ some (record reg { loggers = assign (st r).name r reg.loggers })
      added f = rw (register_logger, f)

  -- An operation, also where it throws.
  abbrev pub perform : Op F H → Registry F H → Store F H → Registry F H × Store F H
  perform (Op.register_op r) reg st = elim (register_logger r reg st) [
    | none ↦ (reg, st)
    | some reg' ↦ (reg', st)
  ]
  perform (Op.initialize_op r) reg st =
      ((initialize_logger r reg st).1, (initialize_logger r reg st).2)
  perform (Op.set_default_op new) reg st = (set_default_logger new reg st, st)
  perform (Op.drop_op k) reg st = (drop_logger k reg st, st)
  perform Op.drop_all_op reg st = (drop_all reg, st)
  perform Op.disable_backtrace_op reg st = disable_backtrace reg st
  perform (Op.set_level_op l) reg st = set_level l reg st
  perform (Op.flush_on_op l) reg st = flush_on l reg st
  perform (Op.set_levels_op levels global_level) reg st = set_levels levels global_level reg st
  perform (Op.set_formatter_op f) reg st = set_formatter f reg st
  perform (Op.set_error_handler_op h) reg st = set_error_handler h reg st
  perform (Op.enable_backtrace_op n) reg st = enable_backtrace n reg st
  perform (Op.set_automatic_registration_op automatic) reg st =
      (set_automatic_registration automatic reg, st)

  Sound-update :
      (r : ℕ) (reg : Registry F H) (st : Store F H)
      → Sound reg st
      → Sound reg (update st r (configured reg (st r)))
  Sound-update r reg st h = record {
    tidy = Tidy-update (λ k o. configured reg o) (λ k o. refl) st [] r h.tidy;
    held = λ i e.
        ap (λ n. find n reg.loggers) (update-name (λ k o. configured reg o) (λ k o. refl) st [] r i)
        ∙ h.held i e;
  }

  Sound-initialize :
      (r : ℕ) (reg : Registry F H) (st : Store F H)
      → Sound reg st
      → Sound (initialize_logger r reg st).1 (initialize_logger r reg st).2
  unfolding initialize_logger
  Sound-initialize r reg st h = elim (Bool-cases reg.automatic_registration) [
    | inr e ↦ final true reg (simp (initialize_logger, e)) (Sound-update r reg st h)
    | inl e ↦ elim (Option-cases (register_logger r reg (update st r (configured reg (st r))))) [
      | inl f ↦ final false reg (simp (initialize_logger, e, f)) (Sound-update r reg st h)
      | inr (reg', f) ↦ final true reg' (simp (initialize_logger, e, f)) (
          Sound-register r reg reg' (update st r (configured reg (st r))) (Sound-update r reg st h)
            f)
    ]
  ]
    where
      final :
          (b : Bool) (reg1 : Registry F H)
          → initialize_logger r reg st ≡ (b, reg1, update st r (configured reg (st r)))
          → Sound reg1 (update st r (configured reg (st r)))
          → Sound (initialize_logger r reg st).1 (initialize_logger r reg st).2
      final b reg1 e k = subst (λ q. Sound q.1 q.2) (sym e) k

  Sound-put :
      (new : Option ℕ) (reg : Registry F H) (st : Store F H) (m : Map ℕ)
      → Tidy st m
      → Sound (record reg { loggers = put_default new st m; default_logger = new }) st
  unfolding put_default
  Sound-put none reg st m t = record { tidy = t; held = λ r e. absurd (none_ne_some e) }
  Sound-put (some r) reg st m t = record {
    tidy = Tidy-assign st r t;
    held = λ i e.
        subst (λ a. find (st a).name (assign (st r).name r m) ≡ some a) (some_inj e)
          (find-first (st r).name (st r).name r (erase (st r).name m) (text_eq_refl (st r).name));
  }

  Sound-set_default :
      (new : Option ℕ) (reg : Registry F H) (st : Store F H)
      → Sound reg st
      → Sound (set_default_logger new reg st) st
  unfolding set_default_logger put_default
  Sound-set_default new reg st h = Sound-put new reg st _ (rest reg.default_logger)
    where
      rest :
          (o : Option ℕ)
          → Tidy st (elim o [ none ↦ reg.loggers | some old ↦ erase (st old).name reg.loggers ])
      rest none = h.tidy
      rest (some old) = Tidy-erase st (st old).name h.tidy

  Sound-drop :
      (k : List ℕ) (reg : Registry F H) (st : Store F H)
      → Sound reg st
      → Sound (drop_logger k reg st) st
  unfolding drop_logger
  Sound-drop k reg st h = record {
    tidy = Tidy-erase st k h.tidy;
    held = λ i e.
        let (d, ne) = kept reg.default_logger i e in
        find-erase_ne k (st i).name reg.loggers
          (λ z. true_ne_false (sym (text_eq_refl k) ∙ ap (λ n. text_eq n k) (sym z) ∙ ne))
        ∙ h.held i d;
  }
    where
      after : (o : Option ℕ) → Option ℕ
      after o = elim o [ none ↦ none | some r ↦ if text_eq (st r).name k then none else some r ]

      gone : (r : ℕ) → text_eq (st r).name k ≡ true → after (some r) ≡ none
      gone r t = rw t

      stays : (r : ℕ) → text_eq (st r).name k ≡ false → after (some r) ≡ some r
      stays r t = rw t

      kept :
          (o : Option ℕ) (i : ℕ) → after o ≡ some i → (o ≡ some i) × (text_eq (st i).name k ≡ false)
      kept none i e = absurd (none_ne_some e)
      kept (some r) i e = elim (Bool-cases (text_eq (st r).name k)) [
        | inl t ↦ absurd (none_ne_some (sym (gone r t) ∙ e))
        | inr t ↦ (
          sym (stays r t) ∙ e,
          ap (λ a. text_eq (st a).name k) (sym (some_inj (sym (stays r t) ∙ e))) ∙ t,
        )
      ]

  -- Every operation, whether it throws or not, keeps the map of loggers in order: each logger
  -- stands under its own name, no two names are the same, and a default logger is in the map.
  pub perform-Sound :
      (op : Op F H) (reg : Registry F H) (st : Store F H)
      → Sound reg st
      → Sound (perform op reg st).0 (perform op reg st).1
  unfolding set_automatic_registration drop_all set_level flush_on set_levels set_formatter
      set_error_handler enable_backtrace disable_backtrace
  perform-Sound (Op.register_op r) reg st h = elim (Option-cases (register_logger r reg st)) [
    | inl e ↦ rw (perform, e) h
    | inr (reg', e) ↦ rw (perform, e) (Sound-register r reg reg' st h e)
  ]
  perform-Sound (Op.initialize_op r) reg st h = Sound-initialize r reg st h
  perform-Sound (Op.set_default_op new) reg st h = Sound-set_default new reg st h
  perform-Sound (Op.drop_op k) reg st h = Sound-drop k reg st h
  perform-Sound Op.drop_all_op reg st h = record {
    tidy = Tidy.nil;
    held = λ r e. absurd (none_ne_some e);
  }
  perform-Sound Op.disable_backtrace_op reg st h =
      Sound-apply_all _ (λ k o. refl) reg _ st refl refl h
  perform-Sound (Op.set_level_op l) reg st h = Sound-apply_all _ (λ k o. refl) reg _ st refl refl h
  perform-Sound (Op.flush_on_op l) reg st h = Sound-apply_all _ (λ k o. refl) reg _ st refl refl h
  perform-Sound (Op.set_levels_op levels global_level) reg st h =
      Sound-apply_all _ (λ k o. refl) reg _ st refl refl h
  perform-Sound (Op.set_formatter_op f) reg st h =
      Sound-apply_all _ (λ k o. refl) reg _ st refl refl h
  perform-Sound (Op.set_error_handler_op e) reg st h =
      Sound-apply_all _ (λ k o. refl) reg _ st refl refl h
  perform-Sound (Op.enable_backtrace_op n) reg st h =
      Sound-apply_all _ (λ k o. refl) reg _ st refl refl h
  perform-Sound (Op.set_automatic_registration_op automatic) reg st h = record {
    tidy = h.tidy;
    held = h.held;
  }
