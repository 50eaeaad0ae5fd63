-- ===== src/UdpClient/Datagrams.antt =====
-- The descriptor of a UDP client, and the datagrams that it sends.
use structlog.Common.{
  none_ne_some, append_assoc, none_ne_some, some_inj, ap, ◌∙◌, append-nil, subst, sym, refl, map, ℕ,
  Bool, true, false, Option, none, some, List, [], ◌∷◌, ◌++◌, ◌≡◌, inl, inr, Bool-cases,
  Option-cases, if◌then◌else◌,
}
use structlog.Common.Int.{ℤ}
use structlog.Network.{Net, Descriptors}
use structlog.Network.Owned.{Owned, nothing-Owned, Owned-same, close-Owned, socket-Owned}
use structlog.UdpClient.{cleanup, UdpClient, create, send}

-- What has been sent, each to an address and a port: a call of `sendto` sends one datagram with
-- all the bytes, or fails.
pub record Posts {W : Type 0} (net : Net W) : Type 0 where
  pub datagrams : W → List (ℕ × ℤ × List ℕ)
  pub send_to_datagrams :
      (s a : ℕ) (port : ℤ) (bytes : List ℕ) (w : W)
      → let (ok, w') = net.send_to s a port bytes w in
        datagrams w' ≡ datagrams w ++ (if ok then (a, port, bytes) ∷ [] else [])

-- The descriptor that a client is made with.
abbrev pub client_socket : Option UdpClient → Option ℕ
client_socket none = none
client_socket (some client) = client.socket

module _ {W : Type 0} (net : Net W) where
  -- Which of the messages do not throw, and what the calls leave.
  unfoldable pub log_all : List (List ℕ) → UdpClient → W → List Bool × W
  log_all [] client w = ([], w)
  log_all (m ∷ ms) client w =
      let (ok, w1) = send net m client w in let (oks, w') = log_all ms client w1 in (ok ∷ oks, w')

-- The messages whose calls did not throw.
abbrev pub kept : {A : Type 0} → List Bool → List A → List A
kept [] ms = []
kept (ok ∷ oks) [] = []
kept (true ∷ oks) (m ∷ ms) = m ∷ kept oks ms
kept (false ∷ oks) (m ∷ ms) = kept oks ms

module _ {W : Type 0} (net : Net W) (d : Descriptors net) (posts : Posts net) where
  create-Owned :
      {others : ℕ → Bool} (host : List ℕ) (port : ℤ) (w : W)
      → Owned net d others none w
      → Owned net d others (client_socket (create net host port w).0) (create net host port w).1
  unfolding create
  create-Owned host port w h = elim (Option-cases (net.socket w).0) [
    | inl e ↦ rw (e, create) (Owned-same net d none w _ (λ t. d.socket_none w t e) h)
    | inr (s, e) ↦
        let w1 = (net.socket w).1 in
        let w2 = (net.set_send_buffer s 10240 w1).1 in
        let opened =
          Owned-same net d (some s) w1 w2 (d.set_send_buffer_open s 10240 w1)
            (socket-Owned net d w s e h) in
        elim (Bool-cases (net.set_send_buffer s 10240 w1).0) [
          | inr f ↦ rw (e, f, create) (close-Owned net d s w2 opened)
          | inl f ↦ elim (Option-cases (net.inet_aton host)) [
            | inl g ↦ rw (e, f, g, create) (close-Owned net d s w2 opened)
            | inr (a, g) ↦ rw (e, f, g, create) opened
          ]
        ]
  ]

  cleanup-Owned :
      {others : ℕ → Bool} (socket : Option ℕ) (w : W)
      → Owned net d others socket w
      → Owned net d others none (cleanup net socket w)
  cleanup-Owned none w h = h
  cleanup-Owned (some s) w h = close-Owned net d s w h

  send-datagrams :
      (bytes : List ℕ) (client : UdpClient) (w : W)
      → let (ok, w') = send net bytes client w in
        posts.datagrams w'
        ≡ posts.datagrams w ++ (if ok then (client.sock_addr, client.port, bytes) ∷ [] else [])
  unfolding send
  send-datagrams bytes client w = elim (Option-cases client.socket) [
    | inl e ↦ rw (e, send) (sym (append-nil (posts.datagrams w)))
    | inr (s, e) ↦ rw (e, send) (posts.send_to_datagrams s client.sock_addr client.port bytes w)
  ]

  send-open :
      (bytes : List ℕ) (client : UdpClient) (w : W) (t : ℕ)
      → d.is_open (send net bytes client w).1 t ≡ d.is_open w t
  unfolding send
  send-open bytes client w t = elim (Option-cases client.socket) [
    | inl e ↦ rw (e, send) refl
    | inr (s, e) ↦ rw (e, send) (d.send_to_open s client.sock_addr client.port bytes w t)
  ]

  -- The datagrams of the messages `ms` to an address and a port.
  abbrev pub mail : ℕ → ℤ → List (List ℕ) → List (ℕ × ℤ × List ℕ)
  mail a port ms = map (λ m. (a, port, m)) ms

  mail-kept :
      (ok : Bool) (oks : List Bool) (m : List ℕ) (ms : List (List ℕ)) (client : UdpClient)
      → (if ok then (client.sock_addr, client.port, m) ∷ [] else [])
          ++ mail client.sock_addr client.port (kept oks ms)
        ≡ mail client.sock_addr client.port (kept (ok ∷ oks) (m ∷ ms))
  mail-kept true oks m ms client = refl
  mail-kept false oks m ms client = refl

  log_all-datagrams :
      (ms : List (List ℕ)) (client : UdpClient) (w : W)
      → let (oks, w') = log_all net ms client w in
        (posts.datagrams w' ≡ posts.datagrams w ++ mail client.sock_addr client.port (kept oks ms))
        × ((t : ℕ) → d.is_open w' t ≡ d.is_open w t)
  unfolding log_all
  log_all-datagrams [] client w = (sym (append-nil (posts.datagrams w)), λ t. refl)
  log_all-datagrams (m ∷ ms) client w =
      let (ok, w1) = send net m client w in
      let (all, same) = log_all-datagrams ms client w1 in
      (
        all
            ∙ ap
                (λ ds.
                  ds ++ mail client.sock_addr client.port (kept (log_all net ms client w1).0 ms))
                (send-datagrams m client w)
            ∙ append_assoc (posts.datagrams w) _ _
            ∙ ap (λ ds. posts.datagrams w ++ ds)
                (mail-kept ok (log_all net ms client w1).0 m ms client),
        λ t. same t ∙ send-open m client w t,
      )

  -- A client that cannot be made leaves the open descriptors as they were.
  pub create_fails :
      (host : List ℕ) (port : ℤ) (w : W)
      → (create net host port w).0 ≡ none
      → (t : ℕ) → d.is_open (create net host port w).1 t ≡ d.is_open w t
  create_fails host port w e =
      let (made, w1) = create net host port w in
      (subst (λ c. Owned net d (d.is_open w) (client_socket c) w1) e
        (create-Owned host port w (nothing-Owned net d w))).held

  -- A client is made for the address of its host and for its port.
  create-address :
      (host : List ℕ) (port : ℤ) (w : W) (client : UdpClient)
      → (create net host port w).0 ≡ some client
      → (net.inet_aton host ≡ some client.sock_addr) × (client.port ≡ port)
  unfolding create
  create-address host port w client e = elim (Option-cases (net.socket w).0) [
    | inl n ↦ absurd (none_ne_some (sym (simp (create, n)) ∙ e))
    | inr (s, n) ↦ elim (Bool-cases (net.set_send_buffer s 10240 (net.socket w).1).0) [
      | inr f ↦ absurd (none_ne_some (sym (simp (create, n, f)) ∙ e))
      | inl f ↦ elim (Option-cases (net.inet_aton host)) [
        | inl g ↦ absurd (none_ne_some (sym (simp (create, n, f, g)) ∙ e))
        | inr (a, g) ↦
            let made : (create net host port w).0
                ≡ some (record { socket = some s; sock_addr = a; port = port }) =
              simp (create, n, f, g) in
            let same = some_inj (sym made ∙ e) in
            (
              g ∙ ap (λ (c : UdpClient). some c.sock_addr) same,
              sym (ap (λ (c : UdpClient). c.port) same),
            )
      ]
    ]
  ]

  -- A UDP client that has been made sends each message whose call does not throw as one
  -- datagram with the whole text, to the address that `inet_aton` reads of the host and to the
  -- port, in order; its destructor leaves the open descriptors as they were before the client
  -- was made.
  pub log_all-posts :
      (host : List ℕ) (port : ℤ) (ms : List (List ℕ)) (w : W) (client : UdpClient)
      → (create net host port w).0 ≡ some client
      → let w1 = (create net host port w).1 in
        let (oks, w') = log_all net ms client w1 in
        (a : ℕ) × (net.inet_aton host ≡ some a)
        × (posts.datagrams w' ≡ posts.datagrams w1 ++ mail a port (kept oks ms))
        × ((t : ℕ) → d.is_open (cleanup net client.socket w') t ≡ d.is_open w t)
  log_all-posts host port ms w client e =
      let w1 = (create net host port w).1 in
      let owned = create-Owned host port w (nothing-Owned net d w) in
      let (all, same) = log_all-datagrams ms client w1 in
      let (address, same_port) = create-address host port w client e in
      (
        client.sock_addr,
        address,
        all
            ∙ ap
                (λ o.
                  posts.datagrams w1
                  ++ mail client.sock_addr o (kept (log_all net ms client w1).0 ms))
                same_port,
        (cleanup-Owned client.socket _ (
            Owned-same net d client.socket w1 _ same
              (subst (λ c. Owned net d (d.is_open w) (client_socket c) w1) e owned))).held,
      )
