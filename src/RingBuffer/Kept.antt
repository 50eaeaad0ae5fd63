-- ===== src/RingBuffer/Kept.antt =====
-- What a ring buffer keeps and shows over any messages and reads.
use structlog.Common.{
  ℕ, Option, some, List, [], ◌∷◌, ◌++◌, ◌>>=◌, map, ◌≡◌, ◌-◌, refl, ap, ap₂, sym, ◌∙◌, keep_last,
  keep_last_all, keep_last-keep_last, append-nil, append_assoc, arith,
}
use mathlib.Core.List.{map-append}
use structlog.CircularQ.{CircularQ, push_back, overrun}
use structlog.CircularQ.Valid.{IsValid, push_back-IsValid, size-lt}
use structlog.CircularQ.Refine.{contents, capacity, length-contents, contents-push_back}
use structlog.Backtracer.{last_raw}
use structlog.Backtracer.Replay.{last_raw-keep_last}
use structlog.RingBuffer.{RingBufferSink, sink_it, last_formatted}
use structlog.RingBuffer.Formatted.{
  shown, map-shown, map-keep_last, length-map, texts, Alike, last_formatted-texts,
}

-- The calls of a ring buffer.
pub data Op (A : Type 0) : Type 0 where
  log : A → Op A
  read_raw read_formatted : ℕ → Op A

abbrev pub logged : {A : Type 0} → List (Op A) → List A
logged [] = []
logged (Op.log m ∷ ops) = m ∷ logged ops
logged (Op.read_raw lim ∷ ops) = logged ops
logged (Op.read_formatted lim ∷ ops) = logged ops

logged-cons :
    {A : Type 0} (op : Op A) (ops : List (Op A))
    → logged (op ∷ ops) ≡ logged (op ∷ []) ++ logged ops
logged-cons (Op.log m) ops = refl
logged-cons (Op.read_raw lim) ops = refl
logged-cons (Op.read_formatted lim) ops = refl

max_items-push_back :
    {A : Type 0} (q : CircularQ A) (m : A) → (push_back q m).max_items ≡ q.max_items
unfolding push_back overrun
max_items-push_back q m = ground arith

module _ {A Fm : Type 0} (format : Fm → A → List ℕ × A × Fm) where
  unfoldable pub step : Op A → RingBufferSink A Fm → Option (RingBufferSink A Fm)
  step (Op.log m) s = some (sink_it m s)
  step (Op.read_raw lim) s = last_raw s.q lim >>= λ ms. some s
  step (Op.read_formatted lim) s = last_formatted format s lim >>= λ r. some r.1

  unfoldable pub run : List (Op A) → RingBufferSink A Fm → Option (RingBufferSink A Fm)
  run [] s = some s
  run (op ∷ ops) s = step op s >>= run ops

  -- A formatter leaves what `core` shows of a message as it is.
  module _ {B : Type 0} (core : A → B)
      (keeps : (formatter : Fm) (m : A) → core (format formatter m).1 ≡ core m) (d : A) where
    abbrev kept : CircularQ A → List B → List B
    kept q ms = keep_last (capacity q) (map core (contents d q) ++ ms)

    -- What a call does to the queue.
    record Steps (ms : List B) (q q' : CircularQ A) : Type 0 where
      valid : IsValid q'
      max_eq : q'.max_items ≡ q.max_items
      core_eq : map core (contents d q') ≡ kept q ms

    Alike-Steps : (q q' : CircularQ A) → IsValid q → Alike format core keeps d q q' → Steps [] q q'
    Alike-Steps q q' h a = record {
      valid = a.valid;
      max_eq = a.max_eq;
      core_eq =
          a.core_eq
          ∙ sym (
              ap (keep_last (capacity q)) (append-nil (map core (contents d q)))
              ∙ keep_last_all (capacity q) (map core (contents d q)) (
                  omega (arith, length-map core (contents d q), length-contents d q, size-lt q h)));
    }

    push_back-Steps : (q : CircularQ A) (m : A) → IsValid q → Steps (core m ∷ []) q (push_back q m)
    push_back-Steps q m h = record {
      valid = push_back-IsValid q m h;
      max_eq = max_items-push_back q m;
      core_eq =
          ap (map core) (contents-push_back d q m h)
          ∙ map-keep_last core (capacity q) (contents d q ++ m ∷ [])
          ∙ ap (keep_last (capacity q)) (map-append core (contents d q) (m ∷ []));
    }

    step-Steps :
        (op : Op A) (s : RingBufferSink A Fm)
        → IsValid s.q
        → (s' : RingBufferSink A Fm) × (step op s ≡ some s')
          × Steps (map core (logged (op ∷ []))) s.q s'.q
    unfolding step sink_it
    step-Steps (Op.log m) s h = (sink_it m s, refl, push_back-Steps s.q m h)
    step-Steps (Op.read_raw lim) s h = (
      s,
      ap (λ o. o >>= λ ms. some s) (last_raw-keep_last d s.q lim h),
      Alike-Steps s.q s.q h (record { valid = h; max_eq = refl; core_eq = refl }),
    )
    step-Steps (Op.read_formatted lim) s h =
        let (s', e, a) = last_formatted-texts format core keeps d s lim h in
        (s', ap (λ o. o >>= λ r. some r.1) e, Alike-Steps s.q s'.q h a)

    kept-kept :
        (op : Op A) (ops : List (Op A)) (q1 q : CircularQ A)
        → Steps (map core (logged (op ∷ []))) q q1
        → kept q1 (map core (logged ops)) ≡ kept q (map core (logged (op ∷ ops)))
    kept-kept op ops q1 q a =
        ap₂ (λ n ms. keep_last (n - 1) (ms ++ map core (logged ops))) a.max_eq a.core_eq
        ∙ keep_last-keep_last (capacity q) _ (map core (logged ops))
        ∙ ap (keep_last (capacity q)) (
            append_assoc (map core (contents d q)) _ _
            ∙ ap (◌++◌ (map core (contents d q))) (
                sym (map-append core (logged (op ∷ [])) (logged ops))
                ∙ ap (map core) (sym (logged-cons op ops))))

    run-Steps :
        (ops : List (Op A)) (s : RingBufferSink A Fm)
        → IsValid s.q
        → (s' : RingBufferSink A Fm) × (run ops s ≡ some s')
          × Steps (map core (logged ops)) s.q s'.q
    unfolding run
    run-Steps [] s h =
        (s, refl, Alike-Steps s.q s.q h (record { valid = h; max_eq = refl; core_eq = refl }))
    run-Steps (op ∷ ops) s h =
        let (s1, e1, a1) = step-Steps op s h in
        let (s2, e2, a2) = run-Steps ops s1 a1.valid in
        (
          s2,
          rw e1 e2,
          record {
            valid = a2.valid;
            max_eq = a2.max_eq ∙ a1.max_eq;
            core_eq = a2.core_eq ∙ kept-kept op ops s1.q s.q a1;
          },
        )

    -- Where the queue is valid: messages are logged, and the ring buffer is read in between,
    -- raw or formatted, and no call fails. A formatted read afterwards prints the last messages
    -- of those that were kept at first or logged since and that the queue has room for, as many
    -- as asked for, or all for 0, in their order, one formatter for all of them; they differ
    -- from what was logged only where a formatter may change a message. The formatter does not
    -- throw.
    pub run-printed :
        (ops : List (Op A)) (lim : ℕ) (s : RingBufferSink A Fm)
        → IsValid s.q
        → (s1 : RingBufferSink A Fm) × (s2 : RingBufferSink A Fm) × (ms : List A) × (run ops s
            ≡ some s1)
          × (last_formatted format s1 lim ≡ some (texts format s1.formatter ms, s2))
          × (map core ms
              ≡ shown lim
                  (keep_last (capacity s.q) (map core (contents d s.q) ++ map core (logged ops))))
    run-printed ops lim s h =
        let (s1, e1, a) = run-Steps ops s h in
        let (s2, e2, a2) = last_formatted-texts format core keeps d s1 lim a.valid in
        (
          s1,
          s2,
          shown lim (contents d s1.q),
          e1,
          e2,
          map-shown core lim (contents d s1.q) ∙ ap (shown lim) a.core_eq,
        )
