-- ===== src/DistSink.antt =====
-- include/spdlog/sinks/dist_sink.h, with its base class in sinks/base_sink-inl.h. The sinks are
-- those of Logger's interface; a call that throws ends the operation, and false says so.
pub mod Deliver
pub mod Recorder
mod Tests
use structlog.Common.{◌||◌, not, ℕ, Bool, true, false, List, [], ◌∷◌, ◌++◌, ◌==◌, if◌then◌else◌}
use structlog.LogMsg.{LogMsg}
use structlog.Logger.{Sinks, sink_should_log}

-- `Fm` are the formatters.
pub record DistSink (Fm : Type 0) : Type 0 where
  pub formatter : Fm
  pub sinks : List ℕ

-- `std::remove`, then `erase`.
remove_all : ℕ → List ℕ → List ℕ
remove_all sink [] = []
remove_all sink (s ∷ ss) = if s == sink then remove_all sink ss else s ∷ remove_all sink ss

module _ {Fm : Type 0} where
  pub add_sink : DistSink Fm → ℕ → DistSink Fm
  add_sink d sink = record d { sinks = d.sinks ++ sink ∷ [] }

  pub remove_sink : DistSink Fm → ℕ → DistSink Fm
  unfolding remove_all
  remove_sink d sink = record d { sinks = remove_all sink d.sinks }

  pub set_sinks : DistSink Fm → List ℕ → DistSink Fm
  set_sinks d sinks = record d { sinks = sinks }

module _ {W : Type 0} (api : Sinks W) where
  -- The loop of `sink_it_`.
  unfoldable pub dist_loop : List ℕ → LogMsg → W → Bool × W
  dist_loop [] msg w = (true, w)
  dist_loop (sink ∷ sinks) msg w =
      let (ok, w') = api.log sink msg w in
      let admits = sink_should_log api sink msg.level w in
      let rest = dist_loop sinks msg (if admits then w' else w) in
      if not admits || ok then rest else (false, w')

  pub dist_flush : List ℕ → W → Bool × W
  dist_flush [] w = (true, w)
  dist_flush (sink ∷ sinks) w =
      let (ok, w') = api.flush sink w in
      let rest = dist_flush sinks w' in if ok then rest else (false, w')

  module _ {Fm : Type 0} (clone : Fm → Fm) (set_sink_formatter : ℕ → Fm → W → W) where
    formatter_loop : List ℕ → Fm → W → W
    formatter_loop [] formatter w = w
    formatter_loop (sink ∷ sinks) formatter w =
        formatter_loop sinks formatter (set_sink_formatter sink (clone formatter) w)

    -- `set_formatter_`
    pub dist_set_formatter : DistSink Fm → Fm → W → DistSink Fm × W
    unfolding formatter_loop
    dist_set_formatter d sink_formatter w =
        (record d { formatter = sink_formatter }, formatter_loop d.sinks sink_formatter w)

    -- `set_pattern_`, where `pattern_formatter` makes a formatter of a pattern.
    pub dist_set_pattern : (List ℕ → Fm) → DistSink Fm → List ℕ → W → DistSink Fm × W
    unfolding dist_set_formatter
    dist_set_pattern pattern_formatter d pattern w =
        dist_set_formatter d (pattern_formatter pattern) w
