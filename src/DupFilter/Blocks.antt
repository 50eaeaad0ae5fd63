-- ===== src/DupFilter/Blocks.antt =====
-- What a filter of duplicates hands to its sinks, over a sequence of messages.
use structlog.Common.{
  codes, ◌^◌, ◌%◌, append_assoc, ◌∙◌, sym, length-append, refl, text_eq, ap, text_eq→eq,
  text_eq_refl, ℕ, true, false, List, [], ◌∷◌, ◌++◌, ◌≡◌, ◌<◌, ◌==◌, length, arith, if◌then◌else◌,
}
use structlog.Common.Int.{pos, ℤ, ◌-ℤ◌, ltb_ℤ, scale_ℤ}
use structlog.Level.{Level}
use structlog.LogMsg.{LogMsg}
use structlog.Logger.Deliver.{admitted}
use structlog.FmtHelper.Printer.{printer, printer-Decimal}
use structlog.DupFilter.{printer, DupFilterSink, filter, skipped_msg, skipped_text}

-- A message, with what the sink reads of the clock and the thread as it gets it.
pub record Call : Type 0 where
  pub msg : LogMsg
  pub now : ℤ
  pub thread_id : ℕ

-- A message that is shown, with the ones after it that are not.
abbrev pub Block : Type 0
Block = Call × List Call

abbrev pub flat : List Block → List Call
flat [] = []
flat ((c, ds) ∷ bs) = c ∷ (ds ++ flat bs)

-- The same text as the last message shown, and not too long after it.
abbrev pub Duplicate : ℤ → LogMsg → ℤ → List ℕ → Type 0
Duplicate max msg time payload =
    (msg.payload ≡ payload) × (ltb_ℤ (scale_ℤ max 1000) (msg.time -ℤ time) ≡ false)

abbrev pub Duplicates : ℤ → ℤ → List ℕ → List Call → Type 0
Duplicates max time payload [] = Unit
Duplicates max time payload (c ∷ cs) =
    Duplicate max c.msg time payload × Duplicates max time payload cs

-- The first of each block is no duplicate of the first before it, and the others are its
-- duplicates.
abbrev pub Filtered : ℤ → ℤ → List ℕ → List Block → Type 0
Filtered max time payload [] = Unit
Filtered max time payload ((c, ds) ∷ bs) =
    (¬ Duplicate max c.msg time payload)
    × Duplicates max c.msg.time c.msg.payload ds
    × Filtered max c.msg.time c.msg.payload bs

-- The notice of `k` skipped messages.
abbrev pub notice : ℕ → Call → List LogMsg
notice k c = if k == 0 then [] else skipped_msg c.msg k c.now c.thread_id ∷ []

-- What is shown after `k` skipped messages, and how many are skipped in the end.
abbrev pub shown : ℕ → List Block → List LogMsg
shown k [] = []
shown k ((c, ds) ∷ bs) = notice k c ++ c.msg ∷ shown (length ds) bs

abbrev pub skipped_last : ℕ → List Block → ℕ
skipped_last k [] = k
skipped_last k ((c, ds) ∷ bs) = skipped_last (length ds) bs

abbrev pub to_sinks : (ℕ → Level) → List ℕ → List LogMsg → List (ℕ × LogMsg)
to_sinks lv ss [] = []
to_sinks lv ss (m ∷ ms) = admitted lv ss m ++ to_sinks lv ss ms

pub filter-false :
    (s : DupFilterSink) (m : LogMsg)
    → filter s m ≡ false
    → Duplicate s.max_skip_duration m s.last_msg_time s.last_msg_payload
unfolding filter
filter-false s m e = ground (arith, text_eq→eq m.payload s.last_msg_payload)

pub filter-true :
    (s : DupFilterSink) (m : LogMsg)
    → filter s m ≡ true
    → ¬ Duplicate s.max_skip_duration m s.last_msg_time s.last_msg_payload
unfolding filter
filter-true s m e d = ground (arith, d.1, text_eq_refl m.payload, ap (text_eq m.payload) d.0)

-- The notice fits the buffer of 64 characters.
pub length-skipped_text : (n : ℕ) → (0 < length (skipped_text n)) × (length (skipped_text n) < 64)
unfolding skipped_text
length-skipped_text n = (
  omega arith,
  omega (
    arith,
    length-append (printer.format_int (pos (n % 2 ^ 32))) (codes " duplicate messages.."),
    printer-Decimal.digits (n % 2 ^ 32),
    printer-Decimal.few_digits (n % 2 ^ 32) 9 (omega arith),
  ),
)

pub to_sinks-append :
    (lv : ℕ → Level) (ss : List ℕ) (ms ns : List LogMsg)
    → to_sinks lv ss (ms ++ ns) ≡ to_sinks lv ss ms ++ to_sinks lv ss ns
to_sinks-append lv ss [] ns = refl
to_sinks-append lv ss (m ∷ ms) ns =
    ap (λ a. admitted lv ss m ++ a) (to_sinks-append lv ss ms ns)
    ∙ sym (append_assoc (admitted lv ss m) (to_sinks lv ss ms) (to_sinks lv ss ns))
