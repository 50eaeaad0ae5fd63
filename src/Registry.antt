-- ===== src/Registry.antt =====
-- include/spdlog/details/registry.h and registry-inl.h. A shared pointer to a logger is a
-- number, and the loggers' objects stand in a store; a map is a list of entries with different
-- keys. The registry's mutex makes each operation one step.
pub mod Apply
pub mod Maps
pub mod Default
pub mod Configure
pub mod Histories
mod Tests
use structlog.Common.{
  true, ltb, ◌==◌, false, text_eq, ◌∷◌, some, Bool, if◌then◌else◌, none, Option, [], List, ℕ,
}
use structlog.Level.{Level}

-- What the registry sets in a logger: the formatter of its sinks, of a type `F`, its handler of
-- errors, of a type `H`, its levels, and the size of its backtrace if that is on.
pub record LoggerObject (F H : Type 0) : Type 0 where
  pub name : List ℕ
  pub formatter : F
  pub err_handler : Option H
  pub level : Level
  pub flush_level : Level
  pub backtrace : Option ℕ

abbrev pub Map : Type 0 → Type 0
Map A = List (List ℕ × A)

module _ {A : Type 0} where
  abbrev pub find : List ℕ → Map A → Option A
  find k [] = none
  find k ((j, a) ∷ m) = if text_eq k j then some a else find k m

  abbrev pub erase : List ℕ → Map A → Map A
  erase k [] = []
  erase k ((j, a) ∷ m) = if text_eq k j then erase k m else (j, a) ∷ erase k m

  -- `m[k] = a`
  abbrev pub assign : List ℕ → A → Map A → Map A
  assign k a m = (k, a) ∷ erase k m

-- The level of a logger after `set_levels`: the one for its key, or the global one if there is one.
abbrev pub new_level : Map Level → Option Level → List ℕ → Level → Level
new_level levels global_level k old = elim (find k levels) [
  | some l ↦ l
  | none ↦ elim global_level [ some g ↦ g | none ↦ old ]
]

abbrev pub Store : Type 0 → Type 0 → Type 0
Store F H = ℕ → LoggerObject F H

pub record Registry (F H : Type 0) : Type 0 where
  pub loggers : Map ℕ
  pub log_levels : Map Level
  pub formatter : F
  pub global_log_level : Level
  pub flush_level : Level
  pub err_handler : Option H
  pub automatic_registration : Bool
  pub backtrace_n_messages : ℕ
  pub default_logger : Option ℕ

module _ {F H : Type 0} where
  abbrev pub update : Store F H → ℕ → LoggerObject F H → Store F H
  update st r o = λ i. if i == r then o else st i

  -- A change of every registered logger, which may depend on its key in the map.
  unfoldable pub apply_all :
      (List ℕ → LoggerObject F H → LoggerObject F H) → Map ℕ → Store F H → Store F H
  apply_all f [] st = st
  apply_all f ((k, r) ∷ m) st = apply_all f m (update st r (f k (st r)))

  -- `none` where the name is taken, a throw.
  unfoldable pub register_logger : ℕ → Registry F H → Store F H → Option (Registry F H)
  register_logger r reg st = elim (find (st r).name reg.loggers) [
    | some old ↦ none
    | none ↦ some (record reg { loggers = assign (st r).name r reg.loggers })
  ]

  -- The logger as the registry configures it.
  abbrev pub configured : Registry F H → LoggerObject F H → LoggerObject F H
  configured reg o = record o {
    formatter = reg.formatter;
    err_handler = elim reg.err_handler [ none ↦ o.err_handler | some h ↦ some h ];
    level = elim (find o.name reg.log_levels) [ none ↦ reg.global_log_level | some l ↦ l ];
    flush_level = reg.flush_level;
    backtrace =
        if ltb 0 reg.backtrace_n_messages then some reg.backtrace_n_messages else o.backtrace;
  }

  -- A Boolean of false is a throw, of the registration; the logger has been configured by then.
  unfoldable pub initialize_logger : ℕ → Registry F H → Store F H → Bool × Registry F H × Store F H
  unfolding register_logger
  initialize_logger r reg st =
      let st' : Store F H = update st r (configured reg (st r)) in
      if reg.automatic_registration
      then elim (register_logger r reg st') [
        | none ↦ (false, reg, st')
        | some reg' ↦ (true, reg', st')
      ]
      else (true, reg, st')

  pub get : List ℕ → Registry F H → Option ℕ
  get logger_name reg = find logger_name reg.loggers

  -- The entry of a default logger that is not null.
  pub put_default : Option ℕ → Store F H → Map ℕ → Map ℕ
  put_default none st m = m
  put_default (some r) st m = assign (st r).name r m

  pub set_default_logger : Option ℕ → Registry F H → Store F H → Registry F H
  unfolding put_default
  set_default_logger new reg st = record reg {
    loggers = put_default new st (elim reg.default_logger [
      | none ↦ reg.loggers
      | some old ↦ erase (st old).name reg.loggers
    ]);
    default_logger = new;
  }

  pub drop_logger : List ℕ → Registry F H → Store F H → Registry F H
  drop_logger logger_name reg st = record reg {
    loggers = erase logger_name reg.loggers;
    default_logger = elim reg.default_logger [
      | none ↦ none
      | some r ↦ if text_eq (st r).name logger_name then none else some r
    ];
  }

  pub drop_all : Registry F H → Registry F H
  drop_all reg = record reg { loggers = []; default_logger = none }

  pub set_formatter : F → Registry F H → Store F H → Registry F H × Store F H
  set_formatter f reg st =
      (record reg { formatter = f }, apply_all (λ k o. record o { formatter = f }) reg.loggers st)

  pub enable_backtrace : ℕ → Registry F H → Store F H → Registry F H × Store F H
  enable_backtrace n reg st = (
    record reg { backtrace_n_messages = n },
    apply_all (λ k o. record o { backtrace = some n }) reg.loggers st,
  )

  pub disable_backtrace : Registry F H → Store F H → Registry F H × Store F H
  disable_backtrace reg st = (
    record reg { backtrace_n_messages = 0 },
    apply_all (λ k o. record o { backtrace = none }) reg.loggers st,
  )

  pub set_level : Level → Registry F H → Store F H → Registry F H × Store F H
  set_level l reg st = (
    record reg { global_log_level = l },
    apply_all (λ k o. record o { level = l }) reg.loggers st,
  )

  pub flush_on : Level → Registry F H → Store F H → Registry F H × Store F H
  flush_on l reg st = (
    record reg { flush_level = l },
    apply_all (λ k o. record o { flush_level = l }) reg.loggers st,
  )

  pub set_error_handler : Option H → Registry F H → Store F H → Registry F H × Store F H
  set_error_handler h reg st = (
    record reg { err_handler = h },
    apply_all (λ k o. record o { err_handler = h }) reg.loggers st,
  )

  pub set_levels : Map Level → Option Level → Registry F H → Store F H → Registry F H × Store F H
  set_levels levels global_level reg st = (
    record reg {
      log_levels = levels;
      global_log_level = elim global_level [ some g ↦ g | none ↦ reg.global_log_level ];
    },
    apply_all (λ k o. record o { level = new_level levels global_level k o.level }) reg.loggers st,
  )

  pub set_automatic_registration : Bool → Registry F H → Registry F H
  set_automatic_registration automatic reg = record reg { automatic_registration = automatic }

  -- The constructor, with the formatter and the logger that it makes, whose name is empty.
  pub create : F → ℕ → Registry F H
  create default_formatter r = record {
    loggers = ([], r) ∷ [];
    log_levels = [];
    formatter = default_formatter;
    global_log_level = Level.info;
    flush_level = Level.off;
    err_handler = none;
    automatic_registration = true;
    backtrace_n_messages = 0;
    default_logger = some r;
  }
