-- ===== src/JsonFormatter.antt =====
-- include/spdlog/json_formatter.h, populators.h and their -inl.h. The JSON library is a
-- parameter: an object, whose fields have no order, is what it gives at each key. A pattern
-- formatter is one of `Fm`, and what it prints of a message is a parameter.
pub mod Order
pub mod Fields
mod Tests
use structlog.Common.{
  ℕ, Option, some, none, List, [], ◌∷◌, ◌++◌, map, ltb, length, text_eq, codes, if◌then◌else◌,
}
use structlog.Common.Int.{ℤ, pos}
use structlog.FmtHelper.{seconds}
use structlog.LogMsg.{LogMsg}

-- The values of the library, an object of them, and the text of an object. The throw of `dump`
-- where a text is no UTF-8 is left out.
pub record Json (V : Type 0) : Type 0 where
  pub string : List ℕ → V
  pub number : ℤ → V
  pub dump : (List ℕ → Option V) → List ℕ

abbrev pub Object : Type 0 → Type 0
Object V = List ℕ → Option V

abbrev pub empty_object : {V : Type 0} → Object V
empty_object key = none

-- `entry[key] = value`
abbrev pub assign : {V : Type 0} → List ℕ → V → Object V → Object V
assign key value entry = λ q. if text_eq q key then some value else entry q

-- The classes of populators.
pub data Populator (Fm : Type 0) : Type 0 where
  pattern_populator : List ℕ → Fm → Populator Fm
  logger_name_populator : Fm → Populator Fm
  pid_populator : Populator Fm
  thread_id_populator : Populator Fm
  timestamp_populator : Populator Fm

abbrev pub logger_name_key : List ℕ
logger_name_key = codes "logger_name"

pub record JsonFormatter (Fm : Type 0) : Type 0 where
  pub k_eol : List ℕ
  pub populators : List (Populator Fm)

-- A message with the items of its `params`.
pub record JsonMsg (V : Type 0) : Type 0 where
  pub msg : LogMsg
  pub params : Option (List (List ℕ × V))

-- The loop over the items of `params`.
abbrev pub assign_items : {V : Type 0} → List (List ℕ × V) → Object V → Object V
assign_items [] entry = entry
assign_items ((key, value) ∷ items) entry = assign_items items (assign key value entry)

module _ {Fm : Type 0} (make_pattern_formatter : List ℕ → Fm) where
  pub date_time_populator : Populator Fm
  date_time_populator =
      Populator.pattern_populator (codes "date_time")
        (make_pattern_formatter (codes "%Y-%m-%d %H:%M:%S.%e%z"))

  pub level_populator : Populator Fm
  level_populator =
      Populator.pattern_populator (codes "level") (make_pattern_formatter (codes "%l"))

  pub make_logger_name_populator : Populator Fm
  make_logger_name_populator = Populator.logger_name_populator (make_pattern_formatter (codes "%n"))

  pub message_populator : Populator Fm
  message_populator =
      Populator.pattern_populator (codes "message") (make_pattern_formatter (codes "%v"))

  pub src_loc_populator : Populator Fm
  src_loc_populator =
      Populator.pattern_populator (codes "src_loc") (make_pattern_formatter (codes "%@"))

  pub make_default_populators : List (Populator Fm)
  unfolding date_time_populator level_populator make_logger_name_populator message_populator
  make_default_populators =
      date_time_populator ∷ level_populator ∷ make_logger_name_populator ∷ message_populator ∷ []

-- `format` is what a pattern formatter prints of a message, with the formatter after it, and
-- `pid` the number of the process.
module _ {V : Type 0} (json : Json V) {Fm : Type 0} (format : Fm → LogMsg → List ℕ × Fm)
    (pid : ℤ) where
  unfoldable pub populate : Populator Fm → LogMsg → Object V → Populator Fm × Object V
  populate (Populator.pattern_populator key pf) msg dest =
      let (tmp, pf') = format pf msg in
      (Populator.pattern_populator key pf', assign key (json.string tmp) dest)
  populate (Populator.logger_name_populator pf) msg dest =
      let (tmp, pf') = format pf msg in
      (
        Populator.logger_name_populator pf',
        if ltb 0 (length tmp) then assign logger_name_key (json.string tmp) dest else dest,
      )
  populate Populator.pid_populator msg dest =
      (Populator.pid_populator, assign (codes "pid") (json.number pid) dest)
  populate Populator.thread_id_populator msg dest = (
    Populator.thread_id_populator,
    assign (codes "thread_id") (json.number (pos msg.thread_id)) dest,
  )
  populate Populator.timestamp_populator msg dest = (
    Populator.timestamp_populator,
    assign (codes "timestamp") (json.number (seconds msg.time)) dest,
  )

  -- The loop over the set of populators, in the order in which the set gives them.
  unfoldable pub populate_all :
      List (Populator Fm) → LogMsg → Object V → List (Populator Fm) × Object V
  unfolding populate
  populate_all [] msg entry = ([], entry)
  populate_all (p ∷ ps) msg entry =
      let (p', entry') = populate p msg entry in
      let (ps', filled) = populate_all ps msg entry' in (p' ∷ ps', filled)

  unfoldable pub json_entry : List (Populator Fm) → JsonMsg V → Object V
  unfolding populate_all
  json_entry ps m =
      let entry = (populate_all ps m.msg empty_object).1 in
      elim m.params [ none ↦ entry | some items ↦ assign_items items entry ]

  unfoldable pub json_format : JsonFormatter Fm → JsonMsg V → List ℕ → JsonFormatter Fm × List ℕ
  unfolding json_entry
  json_format f m dest = (
    record f { populators = (populate_all f.populators m.msg empty_object).0 },
    dest ++ (json.dump (json_entry f.populators m) ++ f.k_eol),
  )

module _ {Fm : Type 0} (clone_formatter : Fm → Fm) where
  pub clone_populator : Populator Fm → Populator Fm
  clone_populator (Populator.pattern_populator key pf) =
      Populator.pattern_populator key (clone_formatter pf)
  clone_populator (Populator.logger_name_populator pf) =
      Populator.logger_name_populator (clone_formatter pf)
  clone_populator Populator.pid_populator = Populator.pid_populator
  clone_populator Populator.thread_id_populator = Populator.thread_id_populator
  clone_populator Populator.timestamp_populator = Populator.timestamp_populator

  -- `clone`
  pub clone_json_formatter : JsonFormatter Fm → JsonFormatter Fm
  unfolding clone_populator
  clone_json_formatter f = record f { populators = map clone_populator f.populators }
