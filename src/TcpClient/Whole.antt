-- ===== src/TcpClient/Whole.antt =====
-- What the peer of a TCP sink is handed of the messages.
use structlog.Common.{
  subst, Bool-cases, ℕ, zero, suc, Bool, true, false, Option, none, some, List, [], ◌∷◌, ◌++◌, ◌≡◌,
  ◌<◌, ◌∙◌, ◌>>=◌, refl, sym, ap, inl, inr, length, take, drop, length-drop, append_assoc,
  append-nil, if◌then◌else◌, arith,
}
use structlog.Network.{Net, Streams}
use structlog.TcpClient.{is_connected, TcpSink, send_loop, send, sink_it, ready}
use structlog.TcpClient.Owned.{Sent-cases}

take-drop : (n : ℕ) (xs : List ℕ) → take n xs ++ drop n xs ≡ xs
take-drop zero xs = refl
take-drop (suc n) [] = refl
take-drop (suc n) (x ∷ xs) = ap (λ t. x ∷ t) (take-drop n xs)

-- The texts of messages in a row.
abbrev pub concat : List (List ℕ) → List ℕ
concat [] = []
concat (m ∷ ms) = m ++ concat ms

module _ {W : Type 0} (net : Net W) where
  -- The messages up to the first that throws.
  unfoldable pub log_some : List (List ℕ) → TcpSink → W → Option (Bool × TcpSink × W)
  log_some [] sink w = some (true, sink, w)
  log_some (m ∷ ms) sink w = sink_it net m sink w >>= λ r. elim r.0 [
    | true ↦ log_some ms r.1 r.2
    | false ↦ some (false, r.1, r.2)
  ]

module _ {W : Type 0} (net : Net W) (st : Streams net) where
  -- On the connection of `s` the bytes are handed over up to some place, which is the end where
  -- nothing throws; then the client is as connected as it was, and else it is not.
  pub record Handed (s : ℕ) (bytes : List ℕ) (w : W) (ok : Bool) (client : Option ℕ) (w' : W)
      : Type 0 where
    pub handed : List ℕ
    pub rest : List ℕ
    pub split : bytes ≡ handed ++ rest
    pub stream_eq : st.stream s w' ≡ st.stream s w ++ handed
    pub whole : (if ok then rest else []) ≡ []
    pub connected : client ≡ (if ok then some s else none)

  send_loop-Handed :
      (fuel s : ℕ) (bytes : List ℕ) (w : W)
      → length bytes < fuel
      → (ok : Bool) × (w' : W) × (send_loop net fuel s bytes w ≡ some (ok, w'))
        × Handed s bytes w ok (if ok then some s else none) w'
  unfolding send_loop
  send_loop-Handed zero s bytes w l = absurd (omega arith)
  send_loop-Handed (suc fuel) s [] w l = (
    true,
    w,
    refl,
    record {
      handed = [];
      rest = [];
      split = refl;
      stream_eq = sym (append-nil (st.stream s w));
      whole = refl;
      connected = refl;
    },
  )
  send_loop-Handed (suc fuel) s (b ∷ bytes) w l =
      let w1 = (net.send s (b ∷ bytes) w).1 in
      elim (Sent-cases (net.send s (b ∷ bytes) w).0) [
        | inl e ↦ (
          false,
          net.close s w1,
          rw (e, send_loop) refl,
          record {
            handed = [];
            rest = b ∷ bytes;
            split = refl;
            stream_eq =
                st.close_stream s w1
                ∙ st.sent_none s (b ∷ bytes) w e
                ∙ sym (append-nil (st.stream s w));
            whole = refl;
            connected = refl;
          },
        )
        | inr (zero, e) ↦ absurd (st.sent_some s b bytes w e)
        | inr (suc n, e) ↦
            let (few, taken) = st.sent_taken s (b ∷ bytes) w (suc n) e in
            let (ok, w', eq, h) =
              send_loop-Handed fuel s (drop n bytes) w1 (omega (arith, length-drop n bytes)) in
            (
              ok,
              w',
              rw (e, send_loop) eq,
              record {
                handed = b ∷ (take n bytes ++ h.handed);
                rest = h.rest;
                split =
                    ap (λ t. b ∷ t)
                      (sym (take-drop n bytes)
                        ∙ ap (λ t. take n bytes ++ t) h.split
                        ∙ sym (append_assoc (take n bytes) h.handed h.rest));
                stream_eq =
                    h.stream_eq
                    ∙ ap (λ t. t ++ h.handed) taken
                    ∙ append_assoc (st.stream s w) (b ∷ take n bytes) h.handed;
                whole = h.whole;
                connected = h.connected;
              },
            )
      ]

  send-Handed :
      (bytes : List ℕ) (s : ℕ) (w : W)
      → (ok : Bool) × (client : Option ℕ) × (w' : W) × (send net bytes (some s) w
          ≡ some (ok, client, w'))
        × Handed s bytes w ok client w'
  unfolding send
  send-Handed [] s w = (
    true,
    some s,
    w,
    refl,
    record {
      handed = [];
      rest = [];
      split = refl;
      stream_eq = sym (append-nil (st.stream s w));
      whole = refl;
      connected = refl;
    },
  )
  send-Handed (b ∷ bytes) s w =
      let (ok, w', e, h) =
        send_loop-Handed (suc (suc (length bytes))) s (b ∷ bytes) w (omega arith) in
      (ok, (if ok then some s else none), w', rw (e, send) refl, h)

  ready-connected :
      (sink : TcpSink) (s : ℕ) (w : W) → sink.client ≡ some s → ready net sink w ≡ (true, some s, w)
  unfolding ready is_connected
  ready-connected sink s w c = rw (c, ready) refl

  sink_it-Handed :
      (formatted : List ℕ) (sink : TcpSink) (s : ℕ) (w : W)
      → sink.client ≡ some s
      → (ok : Bool) × (client : Option ℕ) × (w' : W) × (sink_it net formatted sink w
          ≡ some (ok, record sink { client = client }, w'))
        × Handed s formatted w ok client w'
  unfolding sink_it
  sink_it-Handed formatted sink s w c =
      let (ok, client, w', e, h) = send-Handed formatted s w in
      (
        ok,
        client,
        w',
        rw (ready-connected sink s w c, sink_it) (rw (ready-connected sink s w c) (rw e refl)),
        h,
      )

  -- Messages behind each other, where the first did not throw.
  Handed-more :
      (s : ℕ) (m more : List ℕ) (w w1 w' : W) (c1 client : Option ℕ) (ok : Bool)
      → Handed s m w true c1 w1
      → Handed s more w1 ok client w'
      → Handed s (m ++ more) w ok client w'
  Handed-more s m more w w1 w' c1 client ok h g = record {
    handed = m ++ g.handed;
    rest = g.rest;
    split = ap (λ t. m ++ t) g.split ∙ sym (append_assoc m g.handed g.rest);
    stream_eq =
        g.stream_eq
        ∙ ap (λ t. t ++ g.handed) (h.stream_eq ∙ ap (λ t. st.stream s w ++ t) all)
        ∙ append_assoc (st.stream s w) m g.handed;
    whole = g.whole;
    connected = g.connected;
  }
    where
      all : h.handed ≡ m
      all = sym (append-nil h.handed) ∙ ap (λ t. h.handed ++ t) (sym h.whole) ∙ sym h.split

  Handed-stop :
      (s : ℕ) (m more : List ℕ) (w w1 : W) (client : Option ℕ)
      → Handed s m w false client w1
      → Handed s (m ++ more) w false client w1
  Handed-stop s m more w w1 client h = record {
    handed = h.handed;
    rest = h.rest ++ more;
    split = ap (λ t. t ++ more) h.split ∙ append_assoc h.handed h.rest more;
    stream_eq = h.stream_eq;
    whole = refl;
    connected = h.connected;
  }

  -- A connected TCP sink logs messages up to the first that throws. The calls end. The
  -- connection is handed the bytes of their texts in order, and all of them where no message
  -- throws: then the sink is connected as before. Where one throws the connection has got a
  -- part of the bytes from their start on, and the sink is no longer connected, so that its
  -- next message goes to a new connection.
  pub log_some-Handed :
      (ms : List (List ℕ)) (sink : TcpSink) (s : ℕ) (w : W)
      → sink.client ≡ some s
      → (ok : Bool) × (sink' : TcpSink) × (w' : W) × (log_some net ms sink w ≡ some (ok, sink', w'))
        × Handed s (concat ms) w ok sink'.client w'
  unfolding log_some
  log_some-Handed [] sink s w c = (
    true,
    sink,
    w,
    refl,
    record {
      handed = [];
      rest = [];
      split = refl;
      stream_eq = sym (append-nil (st.stream s w));
      whole = refl;
      connected = c;
    },
  )
  log_some-Handed (m ∷ ms) sink s w c =
      let (ok1, c1, w1, e1, h1) = sink_it-Handed m sink s w c in
      elim (Bool-cases ok1) [
        | inr f ↦ (
          false,
          record sink { client = c1 },
          w1,
          rw (e1, f) refl,
          Handed-stop s m (concat ms) w w1 c1 (subst (λ b. Handed s m w b c1 w1) f h1),
        )
        | inl f ↦
            let h : Handed s m w true c1 w1 = subst (λ b. Handed s m w b c1 w1) f h1 in
            let (ok, sink', w', e, g) =
              log_some-Handed ms (record sink { client = c1 }) s w1 h.connected in
            (
              ok,
              sink',
              w',
              rw (e1, f) e,
              Handed-more s m (concat ms) w w1 w' c1 sink'.client ok h g,
            )
      ]
