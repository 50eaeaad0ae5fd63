-- ===== src/UdpClient.antt =====
-- include/spdlog/details/udp_client.h and include/spdlog/sinks/udp_sink.h, over the calls of
-- the system. A Boolean of false is a throw.
pub mod Datagrams
mod Tests
use structlog.Common.{ℕ, Bool, true, false, Option, none, some, List, [], ◌∷◌}
use structlog.Common.Int.{ℤ}
use structlog.Network.{Net}

pub record UdpClient : Type 0 where
  pub socket : Option ℕ
  pub sock_addr : ℕ
  pub port : ℤ

abbrev tx_buffer_size : ℕ
tx_buffer_size = 10240

module _ {W : Type 0} (net : Net W) where
  -- `cleanup_`, and the destructor.
  abbrev pub cleanup : Option ℕ → W → W
  cleanup none w = w
  cleanup (some s) w = net.close s w

  -- The constructor, which `udp_sink` calls; `none` is a throw.
  unfoldable pub create : List ℕ → ℤ → W → Option UdpClient × W
  create host port w =
      let (socket, w1) = net.socket w in
      elim socket [
        | none ↦ (none, w1)
        | some s ↦
            let (ok, w2) = net.set_send_buffer s tx_buffer_size w1 in
            elim ok [
              | false ↦ (none, cleanup (some s) w2)
              | true ↦ elim (net.inet_aton host) [
                | none ↦ (none, cleanup (some s) w2)
                | some sock_addr ↦
                    (some (record { socket = some s; sock_addr = sock_addr; port = port }), w2)
              ]
            ]
      ]

  -- `send`, and `sink_it_` of `udp_sink` from the formatted message on. The system refuses the
  -- descriptor -1.
  unfoldable pub send : List ℕ → UdpClient → W → Bool × W
  send bytes client w = elim client.socket [
    | none ↦ (false, w)
    | some s ↦ net.send_to s client.sock_addr client.port bytes w
  ]
