-- ===== src/DupFilter/Tests.antt =====
-- The example in the comments of the source.
use structlog.DupFilter.Blocks.{
  skipped_last, shown, to_sinks, Filtered, Duplicates, flat, Block, Call,
}
use structlog.Logger.Deliver.{Observed}
use structlog.DupFilter.{
  skipped_text, skipped_msg, log_skipped, LogMsg, filter, sink_it, create, DupFilterSink,
}
use structlog.Logger.{Sinks}
use structlog.Common.{refl, arith, length, ◌+◌, ◌++◌, ◌≡◌, false, ◌∷◌, ℕ, List, [], codes}
use structlog.Common.Int.{pos}
use structlog.FmtHelper.Printer.{printer}
use structlog.DistSink.{dist_loop}
use structlog.Level.{Level}
use structlog.DistSink.Recorder.{text_message, recorder-Observed, recorder, World}
use structlog.DupFilter.Run.{run, run-shown}

abbrev api : Sinks World
api = recorder (λ s. false)

abbrev api-Observed : Observed api
api-Observed = recorder-Observed (λ s. false)

abbrev message : List ℕ → Call
message text = record { msg = text_message text; now = pos 7000000000; thread_id = 1 }

abbrev calls : List Call
calls =
    message (codes "Hello")
    ∷ message (codes "Hello")
    ∷ message (codes "Hello")
    ∷ message (codes "Different Hello")
    ∷ []

abbrev sink : DupFilterSink
sink = record (create (pos 5000000)) { sinks = 4 ∷ [] }

abbrev empty_world : World
empty_world = record { got = [] }

abbrev payloads : List (ℕ × LogMsg) → List (List ℕ)
payloads [] = []
payloads ((s, m) ∷ ms) = m.payload ∷ payloads ms

shows :
    payloads (run api api-Observed (λ s m v. refl) sink calls empty_world).1.got
    ≡ codes "Hello" ∷ codes "Skipped 2 duplicate messages.." ∷ codes "Different Hello" ∷ []
unfolding run sink_it filter log_skipped skipped_msg skipped_text printer create dist_loop
shows = refl

run-shown_example :
    (ds : List Call) × (bs : List Block) × (calls ≡ ds ++ flat bs)
    × Duplicates (pos 5000000) (pos 0) [] ds
    × Filtered (pos 5000000) (pos 0) [] bs
    × ((run api api-Observed (λ s m v. refl) sink calls empty_world).1.got
        ≡ to_sinks (λ t. Level.trace) (4 ∷ []) (shown (0 + length ds) bs))
    × ((run api api-Observed (λ s m v. refl) sink calls empty_world).0.skip_counter
        ≡ skipped_last (0 + length ds) bs)
unfolding create
run-shown_example =
    run-shown api api-Observed (λ s m v. refl) calls sink empty_world (λ t. Level.trace) (λ t. refl)
      (omega arith)
