-- ===== src/TcpClient/Tests.antt =====
-- TCP sinks on the network in memory, whose second address answers.
use structlog.Common.{Option, ◌>>=◌, ℕ, Bool, false, none, some, List, [], ◌∷◌, ◌≡◌, refl, codes}
use structlog.Common.Int.{pos}
use structlog.Network.Loopback.{World, loopback, loopback-Descriptors, loopback-Streams, quiet}
use structlog.TcpClient.{
  TcpSink, create, close, connect, sink_it, ready, send, send_loop, try_addresses, is_connected,
}
use structlog.Network.Owned.{Owned}
use structlog.TcpClient.Owned.{log_all, log_all-closes}
use structlog.TcpClient.Whole.{Handed, log_some, log_some-Handed}

abbrev sink : TcpSink
sink = record {
  server_host = codes "host";
  server_port = pos 9000;
  lazy_connect = false;
  client = some 4;
}

abbrev texts : List (List ℕ)
texts = codes "hello" ∷ codes "to all" ∷ []

-- The first address refuses, so that the second socket is the client's.
connects : (create loopback (codes "host") (pos 9000) false (quiet 3)).1.client ≡ some 4
unfolding create connect try_addresses
connects = refl

-- With room for three calls of `send` the second message fails in its middle.
sends_part :
    ◌>>=◌ {B = Bool × Option ℕ × List ℕ}
      (log_some loopback texts sink (quiet 3))
      (λ r. some (r.0, r.1.client, r.2.streams 4))
    ≡ some (false, none, codes "helloto ")
unfolding log_some sink_it ready send send_loop is_connected
sends_part = refl

log_all-closes_example :
    let (ok, sink, w1) = create loopback (codes "host") (pos 9000) false (quiet 3) in
    (sink' : TcpSink) × (w' : World) × (log_all loopback texts sink w1 ≡ some (sink', w'))
    × Owned loopback loopback-Descriptors (quiet 3).is_open sink'.client w'
    × ((t : ℕ) → (close loopback sink'.client w').is_open t ≡ false)
unfolding loopback-Descriptors
log_all-closes_example =
    log_all-closes loopback loopback-Descriptors (codes "host") (pos 9000) false texts (quiet 3)

log_some-Handed_example :
    (ok : Bool) × (sink' : TcpSink) × (w' : World) × (log_some loopback texts sink (quiet 3)
      ≡ some (ok, sink', w'))
    × Handed loopback loopback-Streams 4 (codes "helloto all") (quiet 3) ok sink'.client w'
log_some-Handed_example = log_some-Handed loopback loopback-Streams texts sink 4 (quiet 3) refl
