-- ===== src/Network.antt =====
-- The calls of the system on sockets that include/spdlog/details/tcp_client.h and udp_client.h
-- make. `W` is what they act on; a descriptor is a number, and a `none` is the result -1. An
-- address is a number too.
pub mod Owned
pub mod Loopback
use structlog.Common.{
  ◌≢◌, ◌∷◌, ℕ, suc, Bool, true, false, Option, none, some, List, [], ◌++◌, ◌≡◌, ◌≤◌, ◌==◌, ◌||◌,
  ◌&&◌, not, length, take,
}
use structlog.Common.Int.{ℤ}

-- What `send` returns: a negative number, or how many bytes it took.
pub data Sent : Type 0 where
  failed : Sent
  sent : ℕ → Sent

pub record Net (W : Type 0) : Type 0 where
  pub getaddrinfo : List ℕ → ℤ → W → Option (List ℕ) × W
  pub socket : W → Option ℕ × W
  pub connect : ℕ → ℕ → W → Bool × W
  pub close : ℕ → W → W
  pub set_no_delay : ℕ → W → W
  pub send : ℕ → List ℕ → W → Sent × W
  pub set_send_buffer : ℕ → ℕ → W → Bool × W
  pub inet_aton : List ℕ → Option ℕ
  pub send_to : ℕ → ℕ → ℤ → List ℕ → W → Bool × W

-- Which descriptors the process has open: `socket` gives one that was not, `close` takes one away.
pub record Descriptors {W : Type 0} (net : Net W) : Type 0 where
  pub is_open : W → ℕ → Bool
  pub socket_new : (w : W) (s : ℕ) → (net.socket w).0 ≡ some s → is_open w s ≡ false
  pub socket_open :
      (w : W) (s t : ℕ)
      → (net.socket w).0 ≡ some s
      → is_open (net.socket w).1 t ≡ (t == s || is_open w t)
  pub socket_none :
      (w : W) (t : ℕ) → (net.socket w).0 ≡ none → is_open (net.socket w).1 t ≡ is_open w t
  pub close_open :
      (s : ℕ) (w : W) (t : ℕ) → is_open (net.close s w) t ≡ (not (t == s) && is_open w t)
  pub getaddrinfo_open :
      (host : List ℕ) (port : ℤ) (w : W) (t : ℕ)
      → is_open (net.getaddrinfo host port w).1 t ≡ is_open w t
  pub connect_open : (s a : ℕ) (w : W) (t : ℕ) → is_open (net.connect s a w).1 t ≡ is_open w t
  pub set_no_delay_open : (s : ℕ) (w : W) (t : ℕ) → is_open (net.set_no_delay s w) t ≡ is_open w t
  pub send_open :
      (s : ℕ) (bytes : List ℕ) (w : W) (t : ℕ) → is_open (net.send s bytes w).1 t ≡ is_open w t
  pub set_send_buffer_open :
      (s n : ℕ) (w : W) (t : ℕ) → is_open (net.set_send_buffer s n w).1 t ≡ is_open w t
  pub send_to_open :
      (s a : ℕ) (port : ℤ) (bytes : List ℕ) (w : W) (t : ℕ)
      → is_open (net.send_to s a port bytes w).1 t ≡ is_open w t

-- What has been handed to the connection of a descriptor. A `send` takes some of the bytes, in
-- their order, and at least one where there is one.
pub record Streams {W : Type 0} (net : Net W) : Type 0 where
  pub stream : ℕ → W → List ℕ
  pub sent_taken :
      (s : ℕ) (bytes : List ℕ) (w : W) (n : ℕ)
      → (net.send s bytes w).0 ≡ Sent.sent n
      → (n ≤ length bytes) × (stream s (net.send s bytes w).1 ≡ stream s w ++ take n bytes)
  pub sent_some : (s b : ℕ) (bytes : List ℕ) (w : W) → (net.send s (b ∷ bytes) w).0 ≢ Sent.sent 0
  pub sent_none :
      (s : ℕ) (bytes : List ℕ) (w : W)
      → (net.send s bytes w).0 ≡ Sent.failed
      → stream s (net.send s bytes w).1 ≡ stream s w
  pub close_stream : (s : ℕ) (w : W) → stream s (net.close s w) ≡ stream s w
