-- ===== src/TcpClient.antt =====
-- include/spdlog/details/tcp_client.h and include/spdlog/sinks/tcp_sink.h, over the calls of
-- the system. `socket_` is `none` for -1. A Boolean of false is a throw.
pub mod Owned
pub mod Whole
mod Tests
use structlog.Common.{
  ℕ, zero, suc, Bool, true, false, Option, none, some, List, [], ◌∷◌, length, drop, if◌then◌else◌,
}
use structlog.Common.Int.{ℤ}
use structlog.Network.{Net, Sent}

unfoldable pub is_connected : Option ℕ → Bool
is_connected none = false
is_connected (some s) = true

module _ {W : Type 0} (net : Net W) where
  -- `close`, after which `socket_` is -1; the destructor calls it too.
  abbrev pub close : Option ℕ → W → W
  close none w = w
  close (some s) w = net.close s w

  -- The loop of `connect` over the addresses.
  unfoldable pub try_addresses : List ℕ → W → Option ℕ × W
  try_addresses [] w = (none, w)
  try_addresses (a ∷ addresses) w =
      let (socket, w1) = net.socket w in
      elim socket [
        | none ↦ try_addresses addresses w1
        | some s ↦
            let (ok, w2) = net.connect s a w1 in
            elim ok [ true ↦ (some s, w2) | false ↦ try_addresses addresses (net.close s w2) ]
      ]

  -- `connect`
  unfoldable pub connect : List ℕ → ℤ → Option ℕ → W → Bool × Option ℕ × W
  unfolding try_addresses
  connect host port socket w =
      let (addresses, w1) = net.getaddrinfo host port (close socket w) in
      elim addresses [
        | none ↦ (false, none, w1)
        | some found ↦
            let (connected, w2) = try_addresses found w1 in
            elim connected [
              | none ↦ (false, none, w2)
              | some s ↦ (true, some s, net.set_no_delay s w2)
            ]
      ]

  -- The loop of `send` over the bytes that are left, on fuel: whether it ends without a throw.
  -- `none` is the end of the fuel.
  unfoldable pub send_loop : ℕ → ℕ → List ℕ → W → Option (Bool × W)
  send_loop zero s bytes w = none
  send_loop (suc fuel) s [] w = some (true, w)
  send_loop (suc fuel) s (b ∷ bytes) w =
      let (write_result, w1) = net.send s (b ∷ bytes) w in
      elim write_result [
        | Sent.failed ↦ some (false, net.close s w1)
        | Sent.sent zero ↦ some (true, w1)
        | Sent.sent (suc n) ↦ send_loop fuel s (drop n bytes) w1
      ]

  -- `send`: a round takes a byte at least. Without a connection the system refuses the call.
  unfoldable pub send : List ℕ → Option ℕ → W → Option (Bool × Option ℕ × W)
  unfolding send_loop
  send [] socket w = some (true, socket, w)
  send (b ∷ bytes) none w = some (false, none, w)
  send (b ∷ bytes) (some s) w = elim (send_loop (suc (suc (length bytes))) s (b ∷ bytes) w) [
    | none ↦ none
    | some r ↦ some (r.0, (if r.0 then some s else none), r.1)
  ]

-- `tcp_sink`
pub record TcpSink : Type 0 where
  pub server_host : List ℕ
  pub server_port : ℤ
  pub lazy_connect : Bool
  pub client : Option ℕ

module _ {W : Type 0} (net : Net W) where
  -- The constructor.
  unfoldable pub create : List ℕ → ℤ → Bool → W → Bool × TcpSink × W
  unfolding connect
  create server_host server_port lazy_connect w =
      let (ok, client, w1) =
        if lazy_connect then (true, none, w) else connect net server_host server_port none w in
      (
        ok,
        record {
          server_host = server_host;
          server_port = server_port;
          lazy_connect = lazy_connect;
          client = client;
        },
        w1,
      )

  -- The connection that `sink_it_` sends on, a new one where there is none.
  unfoldable pub ready : TcpSink → W → Bool × Option ℕ × W
  ready sink w =
      if is_connected sink.client
      then (true, sink.client, w)
      else connect net sink.server_host sink.server_port sink.client w

  -- `sink_it_`, from the formatted message on.
  unfoldable pub sink_it : List ℕ → TcpSink → W → Option (Bool × TcpSink × W)
  unfolding ready
  sink_it formatted sink w =
      let (ok, client, w1) = ready sink w in
      elim ok [
        | false ↦ some (false, record sink { client = client }, w1)
        | true ↦ elim (send net formatted client w1) [
          | none ↦ none
          | some r ↦ some (r.0, record sink { client = r.1 }, r.2)
        ]
      ]
