-- ===== src/JsonFormatter/Fields.antt =====
-- The fields of a formatted message.
use structlog.Common.{
  inr, inl, ap, Bool-cases, ◌∙◌, ℕ, Option, some, none, List, [], ◌∷◌, ◌≡◌, refl, text_eq,
  if◌then◌else◌, ltb, length, codes,
}
use structlog.Common.Int.{ℤ, pos}
use structlog.FmtHelper.{seconds}
use structlog.LogMsg.{LogMsg}
use structlog.JsonFormatter.{
  Json, Object, Populator, assign, assign_items, empty_object, populate, populate_all, json_entry,
  logger_name_key,
}

-- The key of a populator's field.
abbrev pub key_of : {Fm : Type 0} → Populator Fm → List ℕ
key_of (Populator.pattern_populator key pf) = key
key_of (Populator.logger_name_populator pf) = logger_name_key
key_of Populator.pid_populator = codes "pid"
key_of Populator.thread_id_populator = codes "thread_id"
key_of Populator.timestamp_populator = codes "timestamp"

-- The last value among the items of a key, or else `d`.
abbrev pub last_value : {V : Type 0} → List ℕ → List (List ℕ × V) → Option V → Option V
last_value q [] d = d
last_value q ((key, value) ∷ items) d = last_value q items (if text_eq q key then some value else d)

assign_items-last_value :
    {V : Type 0} (items : List (List ℕ × V)) (entry : Object V) (q : List ℕ)
    → assign_items items entry q ≡ last_value q items (entry q)
assign_items-last_value [] entry q = refl
assign_items-last_value ((key, value) ∷ items) entry q =
    assign_items-last_value items (assign key value entry) q

module _ {V : Type 0} (json : Json V) {Fm : Type 0} (format : Fm → LogMsg → List ℕ × Fm)
    (pid : ℤ) where
  -- The value of a populator's field; there is none for the empty name of a logger.
  abbrev pub value_of : Populator Fm → LogMsg → Option V
  value_of (Populator.pattern_populator key pf) msg = some (json.string (format pf msg).0)
  value_of (Populator.logger_name_populator pf) msg =
      if ltb 0 (length (format pf msg).0) then some (json.string (format pf msg).0) else none
  value_of Populator.pid_populator msg = some (json.number pid)
  value_of Populator.thread_id_populator msg = some (json.number (pos msg.thread_id))
  value_of Populator.timestamp_populator msg = some (json.number (seconds msg.time))

  -- A field is set, where there is a value.
  abbrev pub put : List ℕ → Option V → Object V → Object V
  put key none entry = entry
  put key (some value) entry = assign key value entry

  put-at :
      (key : List ℕ) (value : Option V) (entry : Object V) (q : List ℕ)
      → put key value entry q ≡ put key value (λ k. entry q) q
  put-at key none entry q = refl
  put-at key (some value) entry q = refl

  pub populate-put :
      (p : Populator Fm) (msg : LogMsg) (entry : Object V)
      → (populate json format pid p msg entry).1 ≡ put (key_of p) (value_of p msg) entry
  unfolding populate
  populate-put (Populator.pattern_populator key pf) msg entry = refl
  populate-put (Populator.logger_name_populator pf) msg entry =
      elim (Bool-cases (ltb 0 (length (format pf msg).0))) [ inl e ↦ rw e refl | inr e ↦ rw e refl ]
  populate-put Populator.pid_populator msg entry = refl
  populate-put Populator.thread_id_populator msg entry = refl
  populate-put Populator.timestamp_populator msg entry = refl

  -- The last value that a populator gives to a key, or else `d`.
  abbrev pub populated : List ℕ → List (Populator Fm) → LogMsg → Option V → Option V
  populated q [] msg d = d
  populated q (p ∷ ps) msg d = populated q ps msg (put (key_of p) (value_of p msg) (λ k. d) q)

  populate_all-populated :
      (ps : List (Populator Fm)) (msg : LogMsg) (entry : Object V) (q : List ℕ)
      → (populate_all json format pid ps msg entry).1 q ≡ populated q ps msg (entry q)
  unfolding populate_all
  populate_all-populated [] msg entry q = refl
  populate_all-populated (p ∷ ps) msg entry q =
      populate_all-populated ps msg (populate json format pid p msg entry).1 q
      ∙ ap (λ e. populated q ps msg (e q)) (populate-put p msg entry)
      ∙ ap (populated q ps msg) (put-at (key_of p) (value_of p msg) entry q)

  -- A field of a message with params is the last of the values that its params give to the key,
  -- and else the last that a populator gives to it, if any does.
  pub json_entry-last_value :
      (ps : List (Populator Fm)) (msg : LogMsg) (items : List (List ℕ × V)) (q : List ℕ)
      → json_entry json format pid ps (record { msg = msg; params = some items }) q
        ≡ last_value q items (populated q ps msg none)
  unfolding json_entry
  json_entry-last_value ps msg items q =
      assign_items-last_value items _ q
      ∙ ap (last_value q items) (populate_all-populated ps msg empty_object q)
