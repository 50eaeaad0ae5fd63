-- ===== src/DistSink/Tests.antt =====
-- Three sinks, the second of which throws.
use structlog.DistSink.Recorder.{recorder, recorder-Observed, text_message, World}
use structlog.Logger.Deliver.{admitted, Observed}
use structlog.LogMsg.{LogMsg}
use structlog.DistSink.Deliver.{dist_loop-attempts, Passes}
use structlog.Logger.{Sinks}
use structlog.DistSink.{dist_loop, add_sink, remove_all, remove_sink}
use structlog.Common.{refl, ◌≡◌, [], ◌∷◌, codes, ◌==◌}
use structlog.Level.{Level}

abbrev api : Sinks World
api = recorder (λ s. s == 7)

abbrev api-Observed : Observed api
api-Observed = recorder-Observed (λ s. s == 7)

abbrev hello : LogMsg
hello = text_message (codes "hello")

removes :
    (remove_sink (add_sink (record { formatter = tt; sinks = 1 ∷ 2 ∷ 1 ∷ [] }) 3) 1).sinks
    ≡ 2 ∷ 3 ∷ []
unfolding remove_sink remove_all add_sink
removes = refl

dist_loop-attempts_example :
    Passes api api-Observed hello
      (admitted (λ s. Level.trace) (2 ∷ 7 ∷ 3 ∷ []) hello)
      (record { got = [] })
      (dist_loop api (2 ∷ 7 ∷ 3 ∷ []) hello (record { got = [] }))
dist_loop-attempts_example =
    dist_loop-attempts api api-Observed hello (2 ∷ 7 ∷ 3 ∷ []) (record { got = [] })
