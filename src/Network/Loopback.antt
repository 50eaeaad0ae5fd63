-- ===== src/Network/Loopback.antt =====
-- A network in memory, which meets what is asked of the calls: the first address of each host
-- refuses connections, a `send` takes three bytes at most, and fails when the room is used up.
use structlog.Common.{
  ℕ_discrete, ◌≢◌, ◌⊎◌, none_ne_some, some_inj, ◌-◌, ℕ, zero, suc, Bool, true, false, none, some,
  List, [], ◌∷◌, ◌++◌, ◌≡◌, ◌≤◌, ◌∙◌, ◌==◌, ◌||◌, ◌&&◌, not, refl, sym, ap, length, take, min,
  if◌then◌else◌, ne→==false, eq→==true, arith, codes, text_eq, inl, inr,
}
use structlog.Network.{ℤ, Net, Sent, Descriptors, Streams}

pub record World : Type 0 where
  pub next : ℕ
  pub is_open : ℕ → Bool
  pub streams : ℕ → List ℕ
  pub room : ℕ
  pub datagrams : List (ℕ × ℤ × List ℕ)
  pub fresh : (t : ℕ) → next ≤ t → is_open t ≡ false

abbrev pub quiet : ℕ → World
quiet room = record {
  next = 3;
  is_open = λ t. false;
  streams = λ s. [];
  room = room;
  datagrams = [];
  fresh = λ t l. refl;
}

abbrev open_next : World → World
open_next w = record {
  next = suc w.next;
  is_open = λ t. t == w.next || w.is_open t;
  streams = w.streams;
  room = w.room;
  datagrams = w.datagrams;
  fresh = λ t l. rw (ne→==false t w.next (λ e. absurd (omega arith))) (w.fresh t (omega arith));
}

abbrev and_false : (b : Bool) → (b && false) ≡ false
and_false true = refl
and_false false = refl

abbrev shut : ℕ → World → World
shut s w = record {
  next = w.next;
  is_open = λ t. not (t == s) && w.is_open t;
  streams = w.streams;
  room = w.room;
  datagrams = w.datagrams;
  fresh = λ t l. ap (λ b. not (t == s) && b) (w.fresh t l) ∙ and_false (not (t == s));
}

abbrev hand : ℕ → List ℕ → World → World
hand s bytes w = record w {
  streams = λ t. if t == s then w.streams s ++ bytes else w.streams t;
  room = w.room - 1;
}

abbrev take_some : ℕ → List ℕ → World → Sent × World
take_some s bytes w = elim w.room [
  | zero ↦ (Sent.failed, w)
  | suc k ↦ (Sent.sent (min 3 (length bytes)), hand s (take (min 3 (length bytes)) bytes) w)
]

abbrev pub loopback : Net World
loopback = record {
  getaddrinfo = λ host port w. (some (1 ∷ 2 ∷ []), w);
  socket = λ w. (some w.next, open_next w);
  connect = λ s a w. (a == 2, w);
  close = shut;
  set_no_delay = λ s w. w;
  send = take_some;
  set_send_buffer = λ s n w. (true, w);
  inet_aton = λ host. if text_eq host (codes "127.0.0.1") then some 1 else none;
  send_to =
      λ s a port bytes w. (true, record w { datagrams = w.datagrams ++ (a, port, bytes) ∷ [] });
}

room-cases : (w : World) → (w.room ≡ 0) ⊎ ((k : ℕ) × (w.room ≡ suc k))
room-cases w = elim (ℕ_discrete w.room 0) [ yes e ↦ inl e | no ne ↦ inr (w.room - 1, omega arith) ]

pub take_some-is_open :
    (s : ℕ) (bytes : List ℕ) (w : World) (t : ℕ) → (take_some s bytes w).1.is_open t ≡ w.is_open t
take_some-is_open s bytes w t = elim (room-cases w) [ inl e ↦ rw e refl | inr (k, e) ↦ rw e refl ]

pub sent_count : Sent → ℕ
sent_count Sent.failed = 0
sent_count (Sent.sent n) = suc n

take_some-no_room :
    (s : ℕ) (bytes : List ℕ) (w : World) → w.room ≡ 0 → (take_some s bytes w).0 ≡ Sent.failed
take_some-no_room s bytes w z = rw z refl

take_some-room :
    (s : ℕ) (bytes : List ℕ) (w : World) (k : ℕ)
    → w.room ≡ suc k
    → (take_some s bytes w).0 ≡ Sent.sent (min 3 (length bytes))
take_some-room s bytes w k z = rw z refl

take_some-taken :
    (s : ℕ) (bytes : List ℕ) (w : World) (n : ℕ)
    → (take_some s bytes w).0 ≡ Sent.sent n
    → (n ≤ length bytes) × ((take_some s bytes w).1.streams s ≡ w.streams s ++ take n bytes)
unfolding sent_count
take_some-taken s bytes w n e = elim (room-cases w) [
  | inl z ↦ absurd (omega (arith, ap sent_count (sym (take_some-no_room s bytes w z) ∙ e)))
  | inr (k, z) ↦
      let n_eq : min 3 (length bytes) ≡ n =
        omega (arith, ap sent_count (sym (take_some-room s bytes w k z) ∙ e)) in
      (omega arith, rw (z, eq→==true s s refl) (ap (λ i. w.streams s ++ take i bytes) n_eq))
]

take_some-some :
    (s b : ℕ) (bytes : List ℕ) (w : World) → (take_some s (b ∷ bytes) w).0 ≢ Sent.sent 0
unfolding sent_count
take_some-some s b bytes w e = elim (room-cases w) [
  | inl z ↦ absurd (omega (arith, ap sent_count (sym (take_some-no_room s (b ∷ bytes) w z) ∙ e)))
  | inr (k, z) ↦
      absurd (omega (arith, ap sent_count (sym (take_some-room s (b ∷ bytes) w k z) ∙ e)))
]

take_some-none :
    (s : ℕ) (bytes : List ℕ) (w : World)
    → (take_some s bytes w).0 ≡ Sent.failed
    → (take_some s bytes w).1.streams s ≡ w.streams s
unfolding sent_count
take_some-none s bytes w e = elim (room-cases w) [
  | inl z ↦ rw z refl
  | inr (k, z) ↦ absurd (omega (arith, ap sent_count (sym (take_some-room s bytes w k z) ∙ e)))
]

unfoldable pub loopback-Descriptors : Descriptors loopback
loopback-Descriptors = record {
  is_open = λ w. w.is_open;
  socket_new = λ w s e. ap w.is_open (sym (some_inj e)) ∙ w.fresh w.next (omega arith);
  socket_open = λ w s t e. ap (λ n. t == n || w.is_open t) (some_inj e);
  socket_none = λ w t e. absurd (none_ne_some (sym e));
  close_open = λ s w t. refl;
  getaddrinfo_open = λ host port w t. refl;
  connect_open = λ s a w t. refl;
  set_no_delay_open = λ s w t. refl;
  send_open = take_some-is_open;
  set_send_buffer_open = λ s n w t. refl;
  send_to_open = λ s a port bytes w t. refl;
}

pub loopback-Streams : Streams loopback
loopback-Streams = record {
  stream = λ s w. w.streams s;
  sent_taken = take_some-taken;
  sent_some = λ s b bytes w e. take_some-some s b bytes w e;
  sent_none = take_some-none;
  close_stream = λ s w. refl;
}
