-- ===== src/Backtracer/Replay.antt =====
-- What a backtrace replays and what the ring buffer shows, in terms of the items of the queue.
use native.Mathlib.Numerals.{add-one}
use structlog.Common.{
  ◌++◌, ◌>>=◌, ◌-◌, ◌∙◌, sub_size, ◌≤◌, min, inr, get_elem?-get_or, refl, inl, zero, Bool-cases,
  drop_all, sym, keep_last, suc, nil_of_length, ap, get_or, ltb, arith, drop, [], true,
  if◌then◌else◌, length, ◌<◌, ◌+◌, ◌∷◌, some, ℕ, ◌≡◌, List,
}
use structlog.Backtracer.{
  push, empty, size, CircularQ, Backtracer, foreach_pop, pop_loop, last_raw, read_from,
}
use structlog.CircularQ.Valid.{IsValid, pop_front-IsValid, size-lt}
use structlog.CircularQ.Refine.{
  contents-push_back, capacity, contents, contents-pop_front, at-get_elem?, length-contents,
}
use structlog.CircularQ.Moves.{empty-size}

-- `fun` applied to each item in turn.
abbrev pub fold {ℓ ℓ'} : {A : Type ℓ} {B : Type ℓ'} → (B → A → B) → B → List A → B
fold fun b [] = b
fold fun b (x ∷ xs) = fold fun (fun b x) xs

module _ {ℓ ℓ'} {A : Type ℓ} {B : Type ℓ'} (fun : B → A → B) (d : A) where
  contents-empty : (q : CircularQ A) → IsValid q → empty q ≡ true → contents d q ≡ []
  contents-empty q h e =
      nil_of_length (contents d q) (ground (arith, length-contents d q, empty-size q h))

  pop_loop_lem :
      (n : ℕ) (q : CircularQ A) (b : B)
      → IsValid q
      → size q < n
      → (q' : CircularQ A) × (pop_loop fun n q b ≡ some (fold fun b (contents d q), q'))
        × IsValid q'
        × (contents d q' ≡ [])
  unfolding pop_loop
  pop_loop_lem zero q b h p = absurd (omega arith)
  pop_loop_lem (suc n) q b h p = elim (Bool-cases (empty q)) [
    | inl e ↦ (q, simp (e, contents-empty q h e), h, contents-empty q h e)
    | inr e ↦
        let (x, q1, ef, ep, ec) = contents-pop_front d q h e in
        let (q', el, hv, en) =
          pop_loop_lem n q1 (fun b x) (pop_front-IsValid q h ep)
            (omega (arith, length-contents d q, length-contents d q1, ap length ec)) in
        (q', rw (e, ef, ep, ec) el, hv, en)
  ]

  -- `foreach_pop` on a valid queue ends; it applies the function to the messages, oldest first, and
  -- leaves a valid queue without messages.
  pub foreach_pop-fold :
      (t : Backtracer A) (b : B)
      → IsValid t.messages
      → (t' : Backtracer A) × (foreach_pop fun t b ≡ some (fold fun b (contents d t.messages), t'))
        × IsValid t'.messages
        × (contents d t'.messages ≡ [])
  unfolding foreach_pop
  foreach_pop-fold t b h =
      let (q', e, hv, en) = pop_loop_lem (size t.messages + 1) t.messages b h (omega arith) in
      (
        record t { messages = q' },
        ap (λ o. o >>= λ r. some (r.0, record t { messages = r.1 })) e,
        hv,
        en,
      )

module _ {ℓ} {A : Type ℓ} (d : A) where
  pub drop-get_or :
      (xs : List A) (i : ℕ) → i < length xs → drop i xs ≡ get_or xs i d ∷ drop (suc i) xs
  drop-get_or [] i h = absurd (omega arith)
  drop-get_or (x ∷ xs) zero h = refl
  drop-get_or (x ∷ xs) (suc i) h = drop-get_or xs i (omega arith)

  read_from-drop :
      (q : CircularQ A) (i k : ℕ)
      → IsValid q
      → i + k ≡ size q
      → read_from q i k ≡ some (drop i (contents d q))
  unfolding read_from
  read_from-drop q i zero h e =
      ap some (sym (drop_all i (contents d q) (omega (arith, length-contents d q))))
  read_from-drop q i (suc k) h e = rw (
    at-get_elem? d q i h,
    get_elem?-get_or (contents d q) i d (omega (arith, length-contents d q)),
    read_from-drop q (i + 1) k h (omega arith),
    drop-get_or (contents d q) i (omega (arith, length-contents d q)),
    add-one i,
  )

  read_from-last :
      (q : CircularQ A) (n i : ℕ)
      → IsValid q
      → n ≤ size q
      → i ≡ sub_size (size q) n
      → read_from q i (size q - i) ≡ some (drop (size q - n) (contents d q))
  read_from-last q n i h p e =
      read_from-drop q i (size q - i) h (omega (arith, size-lt q h, h.fits))
      ∙ ap (λ k. some (drop k (contents d q))) (omega (arith, size-lt q h, h.fits))

  -- `last_raw` shows the last messages, all of them for the limit 0, oldest first.
  pub last_raw-keep_last :
      (q : CircularQ A) (lim : ℕ)
      → IsValid q
      → last_raw q lim ≡ some (if ltb 0 lim then keep_last lim (contents d q) else contents d q)
  unfolding last_raw
  last_raw-keep_last q lim h = elim (Bool-cases (ltb 0 lim)) [
    | inl e ↦ rw e (
        read_from-last q (min lim (size q)) _ h (omega arith) refl
        ∙ ap (λ k. some (drop k (contents d q))) (omega (arith, length-contents d q)))
    | inr e ↦ rw e (
        read_from-last q (size q) _ h (omega arith) refl
        ∙ ap (λ k. some (drop k (contents d q))) {y = 0} (omega arith))
  ]

  -- A message joins those that are kept.
  pub push-contents :
      (t : Backtracer A) (m : A)
      → IsValid t.messages
      → contents d (push t m).messages
        ≡ keep_last (capacity t.messages) (contents d t.messages ++ m ∷ [])
  unfolding push
  push-contents t m h = contents-push_back d t.messages m h
