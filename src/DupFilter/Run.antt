-- ===== src/DupFilter/Run.antt =====
-- The filter of duplicates over a sequence of messages, with sinks that do not throw.
use structlog.DistSink.Deliver.{dist_loop-level, dist_loop-all}
use structlog.Level.{Level}
use structlog.DupFilter.{filter, skipped_msg, log_skipped, DupFilterSink}
use structlog.LogMsg.{LogMsg}
use structlog.Logger.Deliver.{admitted, Observed}
use structlog.Logger.{Sinks}
use structlog.Common.{
  Bool, false, ap₂, inl, suc, inr, refl, Bool-cases, ne→==false, lt→ltb, arith, eq→==true,
  append_assoc, size_mod, append-nil, ◌<◌, ap, ltb-false, dec_lt, length, sym, ◌∙◌, ◌+◌, ◌++◌, ◌∷◌,
  [], List, true, ◌≡◌, ℕ,
}
use structlog.DupFilter.Blocks.{
  filter-true, filter-false, skipped_last, length-skipped_text, shown, Filtered, Duplicates, flat,
  to_sinks-append, to_sinks, notice, Call, Block,
}
use structlog.DistSink.{dist_loop}
use structlog.DupFilter.{sink_it}

module _ {W : Type 0} (api : Sinks W) (obs : Observed api)
    (accepts : (s : ℕ) (m : LogMsg) (v : W) → (api.log s m v).0 ≡ true) where
  unfoldable pub run : DupFilterSink → List Call → W → DupFilterSink × W
  run s [] w = (s, w)
  run s (c ∷ cs) w = let (ok, s', w') = sink_it api s c.msg c.now c.thread_id w in run s' cs w'

  -- What a step reads of the sinks, and leaves.
  abbrev Gives : (ℕ → Level) → List ℕ → List LogMsg → W → W → Type 0
  Gives lv ss ms w w' =
      (obs.attempts w' ≡ obs.attempts w ++ to_sinks lv ss ms) × ((t : ℕ) → api.level_of t w' ≡ lv t)

  Gives-none :
      (lv : ℕ → Level) (ss : List ℕ) (w : W)
      → ((t : ℕ) → api.level_of t w ≡ lv t)
      → Gives lv ss [] w w
  Gives-none lv ss w h = (sym (append-nil (obs.attempts w)), h)

  Gives-trans :
      (lv : ℕ → Level) (ss : List ℕ) (ms ns : List LogMsg) (w w1 w2 : W)
      → Gives lv ss ms w w1
      → Gives lv ss ns w1 w2
      → Gives lv ss (ms ++ ns) w w2
  Gives-trans lv ss ms ns w w1 w2 p q = (
    q.0
        ∙ ap (λ a. a ++ to_sinks lv ss ns) p.0
        ∙ append_assoc (obs.attempts w) (to_sinks lv ss ms) (to_sinks lv ss ns)
        ∙ ap (λ a. obs.attempts w ++ a) (sym (to_sinks-append lv ss ms ns)),
    q.1,
  )

  dist_loop-Gives :
      (lv : ℕ → Level) (ss : List ℕ) (m : LogMsg) (w : W)
      → ((t : ℕ) → api.level_of t w ≡ lv t)
      → ((dist_loop api ss m w).0 ≡ true) × Gives lv ss (m ∷ []) w (dist_loop api ss m w).1
  dist_loop-Gives lv ss m w h =
      let (ok, e) = dist_loop-all api obs m (λ s v. accepts s m v) ss w lv h in
      (
        ok,
        (
          e ∙ ap (λ a. obs.attempts w ++ a) (sym (append-nil (admitted lv ss m))),
          λ t. dist_loop-level api obs m ss w t ∙ h t,
        ),
      )

  log_skipped-Gives :
      (s : DupFilterSink) (c : Call) (w : W) (lv : ℕ → Level)
      → ((t : ℕ) → api.level_of t w ≡ lv t)
      → ((log_skipped api s c.msg c.now c.thread_id w).0 ≡ true)
        × Gives lv s.sinks
            (notice s.skip_counter c)
            w
            (log_skipped api s c.msg c.now c.thread_id w).1
  unfolding log_skipped
  log_skipped-Gives s c w lv h = elim (dec_lt 0 s.skip_counter) [
    | no l ↦
        rw (ltb-false _ _ l, eq→==true s.skip_counter 0 (omega arith))
          (refl, Gives-none lv s.sinks w h)
    | yes l ↦
        rw
          (
            lt→ltb _ _ l,
            ne→==false s.skip_counter 0 (omega arith),
            lt→ltb _ _ (length-skipped_text s.skip_counter).0,
            lt→ltb _ _ (length-skipped_text s.skip_counter).1,
          )
          (dist_loop-Gives lv s.sinks (skipped_msg c.msg s.skip_counter c.now c.thread_id) w h)
  ]

  sink_it-skips :
      (s : DupFilterSink) (c : Call) (w : W)
      → filter s c.msg ≡ false
      → suc s.skip_counter < size_mod
      → sink_it api s c.msg c.now c.thread_id w
        ≡ (true, record s { skip_counter = suc s.skip_counter }, w)
  unfolding sink_it
  sink_it-skips s c w e l = rw e (ap (λ k. (true, record s { skip_counter = k }, w)) (omega arith))

  sink_it-shows :
      (s : DupFilterSink) (c : Call) (w : W) (lv : ℕ → Level)
      → ((t : ℕ) → api.level_of t w ≡ lv t)
      → filter s c.msg ≡ true
      → (w' : W) × (sink_it api s c.msg c.now c.thread_id w ≡ (
        true,
        record s { last_msg_time = c.msg.time; skip_counter = 0; last_msg_payload = c.msg.payload },
        w',
      ))
        × Gives lv s.sinks (notice s.skip_counter c ++ c.msg ∷ []) w w'
  unfolding sink_it
  sink_it-shows s c w lv h e =
      let (told, g) = log_skipped-Gives s c w lv h in
      let w1 = (log_skipped api s c.msg c.now c.thread_id w).1 in
      let (logged, g') = dist_loop-Gives lv s.sinks c.msg w1 g.1 in
      (
        (dist_loop api s.sinks c.msg w1).1,
        rw (e, told, logged) refl,
        Gives-trans lv s.sinks (notice s.skip_counter c) (c.msg ∷ []) w w1 _ g g',
      )

  after :
      (s : DupFilterSink) (c : Call) (cs : List Call) (w : W) {r : Bool × DupFilterSink × W}
      → sink_it api s c.msg c.now c.thread_id w ≡ r
      → run s (c ∷ cs) w ≡ run r.1 cs r.2
  unfolding run
  after s c cs w e = ap (λ r. run r.1 cs r.2) e

  -- A sequence of messages falls into blocks: messages that are skipped, which are duplicates
  -- of the last one that was shown before the sequence, and then messages that are no
  -- duplicates of the one shown before, each with its duplicates, which are skipped. The sinks,
  -- which do not throw, get the first message of each block, after a notice of the number that
  -- was skipped before it, if any was; the counter ends as the number skipped last. The counter
  -- does not overflow, and the sinks are as `Observed` describes them.
  pub run-shown :
      (cs : List Call) (s : DupFilterSink) (w : W) (lv : ℕ → Level)
      → ((t : ℕ) → api.level_of t w ≡ lv t)
      → s.skip_counter + length cs < size_mod
      → (ds : List Call) × (bs : List Block) × (cs ≡ ds ++ flat bs)
        × Duplicates s.max_skip_duration s.last_msg_time s.last_msg_payload ds
        × Filtered s.max_skip_duration s.last_msg_time s.last_msg_payload bs
        × (obs.attempts (run s cs w).1
            ≡ obs.attempts w ++ to_sinks lv s.sinks (shown (s.skip_counter + length ds) bs))
        × ((run s cs w).0.skip_counter ≡ skipped_last (s.skip_counter + length ds) bs)
  unfolding run
  run-shown [] s w lv h l = ([], [], refl, tt, tt, sym (append-nil (obs.attempts w)), omega arith)
  run-shown (c ∷ cs) s w lv h l = elim (Bool-cases (filter s c.msg)) [
    | inr e ↦
        let s' = record s { skip_counter = suc s.skip_counter } in
        let skip = sink_it-skips s c w e (omega arith) in
        let (ds, bs, split, dup, good, out, count) = run-shown cs s' w lv h (omega arith) in
        (
          c ∷ ds,
          bs,
          ap (◌∷◌ c) split,
          (filter-false s c.msg e, dup),
          good,
          ap (λ r. obs.attempts r.1) (after s c cs w skip)
              ∙ out
              ∙ ap (λ k. obs.attempts w ++ to_sinks lv s.sinks (shown k bs)) (omega arith),
          ap (λ r. r.0.skip_counter) (after s c cs w skip)
              ∙ count
              ∙ ap (λ k. skipped_last k bs) (omega arith),
        )
    | inl e ↦
        let (w', step, g) = sink_it-shows s c w lv h e in
        let s' = record s {
          last_msg_time = c.msg.time;
          skip_counter = 0;
          last_msg_payload = c.msg.payload;
        } in
        let (ds, bs, split, dup, good, out, count) = run-shown cs s' w' lv g.1 (omega arith) in
        (
          [],
          (c, ds) ∷ bs,
          ap (◌∷◌ c) split,
          tt,
          (filter-true s c.msg e, dup, good),
          ap (λ r. obs.attempts r.1) (after s c cs w step)
              ∙ out
              ∙ ap (λ a. a ++ to_sinks lv s.sinks (shown (0 + length ds) bs)) g.0
              ∙ append_assoc (obs.attempts w) _ _
              ∙ ap (λ a. obs.attempts w ++ a)
                  (sym (to_sinks-append lv s.sinks (notice s.skip_counter c ++ c.msg ∷ []) _)
                    ∙ ap (to_sinks lv s.sinks) (
                        append_assoc (notice s.skip_counter c) (c.msg ∷ []) _
                        ∙ ap₂ (λ j k. notice j c ++ c.msg ∷ shown k bs) {x = s.skip_counter}
                            {u = 0 + length ds} (omega arith) (omega arith))),
          ap (λ r. r.0.skip_counter) (after s c cs w step)
              ∙ count
              ∙ ap (λ k. skipped_last k bs) {x = 0 + length ds} {y = length ds} (omega arith),
        )
  ]
