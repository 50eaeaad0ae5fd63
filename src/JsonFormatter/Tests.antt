-- ===== src/JsonFormatter/Tests.antt =====
-- A message as a line of JSON.
use structlog.JsonFormatter.Fields.{json_entry-last_value, populated, last_value}
use structlog.JsonFormatter.Order.{mk_set-Swapped, json_format-PopulatorSet, Swapped}
use structlog.Common.{
  refl, none, ◌≡◌, ◌++◌, some, [], length, ◌∷◌, ℕ, ap, List, arith, Option, codes, ◌≢◌,
}
use structlog.Common.Int.{pos}
use structlog.DistSink.Recorder.{text_message}
use structlog.JsonFormatter.{
  populate, LogMsg, populate_all, json_format, json_entry, Json, Populator, JsonMsg,
}
use structlog.FmtHelper.Printer.{printer}

abbrev text_or_none : Option (List ℕ) → List ℕ
text_or_none none = codes "-"
text_or_none (some t) = t

-- The values are their texts; three of the fields of an object are printed.
abbrev json : Json (List ℕ)
json = record {
  string = λ t. t;
  number = λ n. printer.format_int n;
  dump = λ entry.
      text_or_none (entry (codes "message"))
      ++ b','
        ∷ (text_or_none (entry (codes "pid")) ++ b',' ∷ text_or_none (entry (codes "logger_name")));
}

-- A pattern formatter is what it prints.
abbrev format : List ℕ → LogMsg → List ℕ × List ℕ
format pf msg = (pf ++ msg.payload, pf)

abbrev message_of : Populator (List ℕ)
message_of = Populator.pattern_populator (codes "message") (codes "> ")

abbrev message : JsonMsg (List ℕ)
message = record { msg = text_message (codes "hi"); params = some ((codes "pid", codes "9") ∷ []) }

line :
    (json_format json format
      (pos 7)
      (record { k_eol = codes "."; populators = message_of ∷ Populator.pid_populator ∷ [] })
      message
      []).1
    ≡ codes "> hi,9,-."
unfolding json_format json_entry populate_all populate
line = refl

json_entry-last_value_example :
    json_entry json format (pos 7) (message_of ∷ Populator.pid_populator ∷ []) message (codes "pid")
    ≡ last_value (codes "pid") ((codes "pid", codes "9") ∷ []) (
        populated json format
          (pos 7)
          (codes "pid")
          (message_of ∷ Populator.pid_populator ∷ [])
          (text_message (codes "hi"))
          none)
json_entry-last_value_example =
    json_entry-last_value json format (pos 7) (message_of ∷ Populator.pid_populator ∷ [])
      (text_message (codes "hi")) ((codes "pid", codes "9") ∷ []) (codes "pid")

message_ne_pid : codes "message" ≢ codes "pid"
message_ne_pid e = ground (arith, ap length e)

swapped :
    Swapped json format
      (pos 7)
      (message_of ∷ Populator.pid_populator ∷ [])
      (Populator.pid_populator ∷ message_of ∷ [])
swapped = ([], [], message_of, Populator.pid_populator, message_ne_pid, refl, refl)

json_format-PopulatorSet_example :
    (json_format json format
      (pos 7)
      (record { k_eol = codes "."; populators = message_of ∷ Populator.pid_populator ∷ [] })
      message
      []).1
    ≡ (json_format json format
        (pos 7)
        (record { k_eol = codes "."; populators = Populator.pid_populator ∷ message_of ∷ [] })
        message
        []).1
json_format-PopulatorSet_example =
    json_format-PopulatorSet json format (pos 7) (codes ".")
      (message_of ∷ Populator.pid_populator ∷ []) (Populator.pid_populator ∷ message_of ∷ [])
      message [] (mk_set-Swapped json format (pos 7) _ _ swapped)
