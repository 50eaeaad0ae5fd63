-- ===== src/RingBuffer/Formatted.antt =====
-- What a ring buffer prints, and what printing changes.
use structlog.Common.{
  ℕ, zero, suc, some, List, [], ◌∷◌, ◌>>=◌, map, length, ◌≡◌, ◌+◌, ◌-◌, ◌≤◌, refl, ap, ap₂, sym,
  ◌∙◌, drop, drop_all, keep_last, get_or, get_elem?-get_or, ltb, min, sub_size, if◌then◌else◌,
  Bool-cases, inl, inr, arith,
}
use native.Mathlib.Numerals.{add-one}
use structlog.CircularQ.{CircularQ, size}
use structlog.CircularQ.Valid.{IsValid, size-lt}
use structlog.CircularQ.Refine.{contents, length-contents, at-get_elem?}
use structlog.Backtracer.Replay.{drop-get_or}
use structlog.RingBuffer.{RingBufferSink, put, format_from, last_formatted}
use structlog.RingBuffer.Put.{put-IsValid, size-put, contents-put, drop-set, map-set}

-- The messages for a limit, all of them for 0.
abbrev pub shown {ℓ} : {A : Type ℓ} → ℕ → List A → List A
shown lim xs = if ltb 0 lim then keep_last lim xs else xs

pub length-map : {A B : Type 0} (f : A → B) (xs : List A) → length (map f xs) ≡ length xs
length-map f [] = refl
length-map f (x ∷ xs) = ap suc (length-map f xs)

map-drop : {A B : Type 0} (f : A → B) (n : ℕ) (xs : List A) → map f (drop n xs) ≡ drop n (map f xs)
map-drop f zero xs = refl
map-drop f (suc n) [] = refl
map-drop f (suc n) (x ∷ xs) = map-drop f n xs

pub map-keep_last :
    {A B : Type 0} (f : A → B) (n : ℕ) (xs : List A)
    → map f (keep_last n xs) ≡ keep_last n (map f xs)
map-keep_last f n xs =
    map-drop f (length xs - n) xs ∙ ap (λ l. drop (l - n) (map f xs)) (sym (length-map f xs))

pub map-shown :
    {A B : Type 0} (f : A → B) (lim : ℕ) (xs : List A) → map f (shown lim xs) ≡ shown lim (map f xs)
map-shown f lim xs = elim (Bool-cases (ltb 0 lim)) [
  | inl e ↦ rw e (map-keep_last f lim xs)
  | inr e ↦ rw e refl
]

module _ {A Fm : Type 0} (format : Fm → A → List ℕ × A × Fm) where
  -- The texts of messages, printed one after the other.
  abbrev pub texts : Fm → List A → List (List ℕ)
  texts formatter [] = []
  texts formatter (m ∷ ms) =
      let (text, m', formatter') = format formatter m in text ∷ texts formatter' ms

  -- A formatter leaves what `core` shows of a message as it is.
  module _ {B : Type 0} (core : A → B)
      (keeps : (formatter : Fm) (m : A) → core (format formatter m).1 ≡ core m) (d : A) where
    -- The queue `q'` is as `q`, but for what a formatter may change.
    pub record Alike (q q' : CircularQ A) : Type 0 where
      pub valid : IsValid q'
      pub max_eq : q'.max_items ≡ q.max_items
      pub core_eq : map core (contents d q') ≡ map core (contents d q)

    format_from-texts :
        (q : CircularQ A) (formatter : Fm) (i k : ℕ)
        → IsValid q
        → i + k ≡ size q
        → (q' : CircularQ A) × (formatter' : Fm) × (format_from format q formatter i k
            ≡ some (texts formatter (drop i (contents d q)), q', formatter'))
          × Alike q q'
    unfolding format_from
    format_from-texts q formatter i zero h e = (
      q,
      formatter,
      ap (λ ms. some (texts formatter ms, q, formatter))
          (sym (drop_all i (contents d q) (omega (arith, length-contents d q)))),
      record { valid = h; max_eq = refl; core_eq = refl },
    )
    format_from-texts q formatter i (suc k) h e =
        let inside = length-contents d q in
        let m = get_or (contents d q) i d in
        let (text, m', formatter1) = format formatter m in
        let put_eq = contents-put d q i m' h (omega arith) in
        let (q', formatter', el, a) =
          format_from-texts (put q i m') formatter1 (i + 1) k (put-IsValid d q i m' h)
            (omega (arith, size-put d q i m')) in
        (
          q',
          formatter',
          rw
              (
                at-get_elem? d q i h,
                get_elem?-get_or (contents d q) i d (omega arith),
                el,
                put_eq,
                add-one i,
                drop-set (contents d q) i m',
                drop-get_or d (contents d q) i (omega arith),
              )
              refl,
          record {
            valid = a.valid;
            max_eq = a.max_eq;
            core_eq =
                a.core_eq
                ∙ ap (map core) put_eq
                ∙ map-set core d (contents d q) i m' (keeps formatter m);
          },
        )

    -- For `n` messages.
    last_formatted-from :
        (s : RingBufferSink A Fm) (lim n : ℕ)
        → IsValid s.q
        → n ≤ size s.q
        → (if ltb 0 lim then min lim (size s.q) else size s.q) ≡ n
        → drop (size s.q - n) (contents d s.q) ≡ shown lim (contents d s.q)
        → (s' : RingBufferSink A Fm) × (last_formatted format s lim
            ≡ some (texts s.formatter (shown lim (contents d s.q)), s'))
          × Alike s.q s'.q
    unfolding last_formatted
    last_formatted-from s lim n h few n_eq drop_eq =
        let q = s.q in
        let start_eq : sub_size (size q) n ≡ size q - n = omega (arith, size-lt q h, h.fits) in
        let count_eq : size q - sub_size (size q) n ≡ n = omega (arith, size-lt q h, h.fits) in
        let (q', formatter', e, a) =
          format_from-texts q s.formatter (size q - n) n h (omega arith) in
        (
          record { q = q'; formatter = formatter' },
          ap
                (λ k.
                  format_from format q s.formatter (sub_size (size q) k)
                    (size q - sub_size (size q) k)
                  >>= λ r. some (r.0, record { q = r.1; formatter = r.2 }))
                n_eq
              ∙ ap₂
                  (λ i k. format_from format q s.formatter i k >>= λ r.
                    some (r.0, record { q = r.1; formatter = r.2 }))
                  start_eq count_eq
              ∙ ap (λ o. o >>= λ r. some (r.0, record { q = r.1; formatter = r.2 })) e
              ∙ ap (λ ms. some (texts s.formatter ms, record { q = q'; formatter = formatter' }))
                  drop_eq,
          a,
        )

    pub last_formatted-texts :
        (s : RingBufferSink A Fm) (lim : ℕ)
        → IsValid s.q
        → (s' : RingBufferSink A Fm) × (last_formatted format s lim
            ≡ some (texts s.formatter (shown lim (contents d s.q)), s'))
          × Alike s.q s'.q
    last_formatted-texts s lim h = elim (Bool-cases (ltb 0 lim)) [
      | inl e ↦
          last_formatted-from s lim (min lim (size s.q)) h (omega arith) (rw e refl)
            (rw e (ap (λ k. drop k (contents d s.q)) (omega (arith, length-contents d s.q))))
      | inr e ↦
          last_formatted-from s lim (size s.q) h (omega arith) (rw e refl)
            (rw e (ap (λ k. drop k (contents d s.q)) {y = 0} (omega arith)))
    ]
