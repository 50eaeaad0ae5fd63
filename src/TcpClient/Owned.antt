-- ===== src/TcpClient/Owned.antt =====
-- Which descriptors a process has open while a TCP sink works, also where its calls fail.
use structlog.Common.{
  ◌>>=◌, ◌⊎◌, ℕ, zero, suc, Bool, true, false, Option, none, some, List, [], ◌∷◌, ◌≡◌, ◌<◌, ◌∙◌,
  refl, ap, subst, inl, inr, length, drop, length-drop, Option-cases, Bool-cases, if◌then◌else◌,
  arith,
}
use structlog.Common.Int.{ℤ}
use structlog.Network.{Net, Sent, Descriptors}
use structlog.Network.Owned.{nothing-Owned, Owned, Owned-same, close-Owned, socket-Owned}
use structlog.TcpClient.{
  ready, TcpSink, close, try_addresses, connect, send_loop, send, create, sink_it, is_connected,
}

-- `send` returns an error, or a number of bytes.
pub Sent-cases : (r : Sent) → (r ≡ Sent.failed) ⊎ ((n : ℕ) × (r ≡ Sent.sent n))
Sent-cases Sent.failed = inl refl
Sent-cases (Sent.sent n) = inr (n, refl)

module _ {W : Type 0} (net : Net W) where
  -- The messages of a sink, whether they throw or not.
  unfoldable pub log_all : List (List ℕ) → TcpSink → W → Option (TcpSink × W)
  log_all [] sink w = some (sink, w)
  log_all (m ∷ ms) sink w = sink_it net m sink w >>= λ r. log_all ms r.1 r.2

module _ {W : Type 0} (net : Net W) (d : Descriptors net) where
  open d use {is_open}

  module _ {others : ℕ → Bool} where
    close_client-Owned :
        (client : Option ℕ) (w : W)
        → Owned net d others client w
        → Owned net d others none (close net client w)
    close_client-Owned none w h = h
    close_client-Owned (some s) w h = close-Owned net d s w h

    try_addresses-Owned :
        (addresses : List ℕ) (w : W)
        → Owned net d others none w
        → Owned net d others (try_addresses net addresses w).0 (try_addresses net addresses w).1
    unfolding try_addresses
    try_addresses-Owned [] w h = h
    try_addresses-Owned (a ∷ addresses) w h = elim (Option-cases (net.socket w).0) [
      | inl e ↦
          rw (e, try_addresses)
            (try_addresses-Owned addresses (net.socket w).1
              (Owned-same net d none w _ (λ t. d.socket_none w t e) h))
      | inr (s, e) ↦
          let w1 = (net.socket w).1 in
          let opened =
            Owned-same net d (some s) w1 _ (d.connect_open s a w1) (socket-Owned net d w s e h) in
          elim (Bool-cases (net.connect s a w1).0) [
            | inl f ↦ rw (e, f, try_addresses) opened
            | inr f ↦
                rw (e, f, try_addresses)
                  (try_addresses-Owned addresses _
                    (close-Owned net d s (net.connect s a w1).1 opened))
          ]
    ]

    connect-Owned :
        (host : List ℕ) (port : ℤ) (client : Option ℕ) (w : W)
        → Owned net d others client w
        → Owned net d others (connect net host port client w).1 (connect net host port client w).2
    unfolding connect
    connect-Owned host port client w h =
        let w0 = close net client w in
        let w1 = (net.getaddrinfo host port w0).1 in
        let asked =
          Owned-same net d none w0 w1 (d.getaddrinfo_open host port w0)
            (close_client-Owned client w h) in
        elim (Option-cases (net.getaddrinfo host port w0).0) [
          | inl e ↦ rw (e, connect) asked
          | inr (found, e) ↦
              let tried = try_addresses-Owned found w1 asked in
              elim (Option-cases (try_addresses net found w1).0) [
                | inl f ↦
                    rw (e, f, connect)
                      (subst (λ c. Owned net d others c (try_addresses net found w1).1) f tried)
                | inr (s, f) ↦
                    rw (e, f, connect)
                      (Owned-same net d (some s) _ _
                        (d.set_no_delay_open s (try_addresses net found w1).1)
                        (subst (λ c. Owned net d others c (try_addresses net found w1).1) f tried))
              ]
        ]

    -- The loop of `send` ends, and has closed the descriptor where it throws.
    send_loop-Owned :
        (fuel s : ℕ) (bytes : List ℕ) (w : W)
        → length bytes < fuel
        → Owned net d others (some s) w
        → (ok : Bool) × (w' : W) × (send_loop net fuel s bytes w ≡ some (ok, w'))
          × Owned net d others (if ok then some s else none) w'
    unfolding send_loop
    send_loop-Owned zero s bytes w l h = absurd (omega arith)
    send_loop-Owned (suc fuel) s [] w l h = (true, w, refl, h)
    send_loop-Owned (suc fuel) s (b ∷ bytes) w l h =
        let w1 = (net.send s (b ∷ bytes) w).1 in
        let sent = Owned-same net d (some s) w w1 (d.send_open s (b ∷ bytes) w) h in
        elim (Sent-cases (net.send s (b ∷ bytes) w).0) [
          | inl e ↦ (false, net.close s w1, rw (e, send_loop) refl, close-Owned net d s w1 sent)
          | inr (zero, e) ↦ (true, w1, rw (e, send_loop) refl, sent)
          | inr (suc n, e) ↦
              let (ok, w', eq, h') =
                send_loop-Owned fuel s (drop n bytes) w1 (omega (arith, length-drop n bytes))
                  sent in
              (ok, w', rw (e, send_loop) eq, h')
        ]

    send-Owned :
        (bytes : List ℕ) (client : Option ℕ) (w : W)
        → Owned net d others client w
        → (ok : Bool) × (client' : Option ℕ) × (w' : W) × (send net bytes client w
            ≡ some (ok, client', w'))
          × Owned net d others client' w'
    unfolding send
    send-Owned [] client w h = (true, client, w, refl, h)
    send-Owned (b ∷ bytes) none w h = (false, none, w, refl, h)
    send-Owned (b ∷ bytes) (some s) w h =
        let (ok, w', e, h') =
          send_loop-Owned (suc (suc (length bytes))) s (b ∷ bytes) w (omega arith) h in
        (ok, (if ok then some s else none), w', rw (e, send) refl, h')

    ready-Owned :
        (sink : TcpSink) (w : W)
        → Owned net d others sink.client w
        → Owned net d others (ready net sink w).1 (ready net sink w).2
    unfolding ready
    ready-Owned sink w h = elim (Bool-cases (is_connected sink.client)) [
      | inl e ↦ rw (e, ready) h
      | inr e ↦ rw (e, ready) (connect-Owned sink.server_host sink.server_port sink.client w h)
    ]

    pub sink_it-Owned :
        (formatted : List ℕ) (sink : TcpSink) (w : W)
        → Owned net d others sink.client w
        → (ok : Bool) × (sink' : TcpSink) × (w' : W) × (sink_it net formatted sink w
            ≡ some (ok, sink', w'))
          × Owned net d others sink'.client w'
    unfolding sink_it
    sink_it-Owned formatted sink w h =
        let r = ready net sink w in
        elim (Bool-cases r.0) [
          | inr e ↦
              (false, record sink { client = r.1 }, r.2, rw (e, sink_it) refl, ready-Owned sink w h)
          | inl e ↦
              let (ok, client', w', eq, h') = send-Owned formatted r.1 r.2 (ready-Owned sink w h) in
              (ok, record sink { client = client' }, w', rw (e, eq, sink_it) refl, h')
        ]

    create-Owned :
        (host : List ℕ) (port : ℤ) (lazy_connect : Bool) (w : W)
        → Owned net d others none w
        → Owned net d others
            (create net host port lazy_connect w).1.client
            (create net host port lazy_connect w).2
    unfolding create
    create-Owned host port lazy_connect w h = elim (Bool-cases lazy_connect) [
      | inl e ↦ rw e h
      | inr e ↦ rw e (connect-Owned host port none w h)
    ]

  log_all-Owned :
      {others : ℕ → Bool} (ms : List (List ℕ)) (sink : TcpSink) (w : W)
      → Owned net d others sink.client w
      → (sink' : TcpSink) × (w' : W) × (log_all net ms sink w ≡ some (sink', w'))
        × Owned net d others sink'.client w'
  unfolding log_all
  log_all-Owned [] sink w h = (sink, w, refl, h)
  log_all-Owned (m ∷ ms) sink w h =
      let (ok, sink1, w1, e, h1) = sink_it-Owned m sink w h in
      let (sink', w', e', h') = log_all-Owned ms sink1 w1 h1 in
      (sink', w', ap (λ o. o >>= λ r. log_all net ms r.1 r.2) e ∙ e', h')

  -- A TCP sink is made, whether it connects or not, and logs messages, each of which may throw:
  -- every call ends, and at the end the process has open what it had at first, and one
  -- descriptor more where the client is connected, which was not open at first. The destructor
  -- closes that one.
  pub log_all-closes :
      (host : List ℕ) (port : ℤ) (lazy_connect : Bool) (ms : List (List ℕ)) (w : W)
      → let (ok, sink, w1) = create net host port lazy_connect w in
        (sink' : TcpSink) × (w' : W) × (log_all net ms sink w1 ≡ some (sink', w'))
        × Owned net d (is_open w) sink'.client w'
        × ((t : ℕ) → is_open (close net sink'.client w') t ≡ is_open w t)
  log_all-closes host port lazy_connect ms w =
      let (sink', w', e, h) =
        log_all-Owned ms _ _ (create-Owned host port lazy_connect w (nothing-Owned net d w)) in
      (sink', w', e, h, (close_client-Owned sink'.client w' h).held)
