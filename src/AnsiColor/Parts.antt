-- ===== src/AnsiColor/Parts.antt =====
-- What a color sink writes of a message.
use structlog.Common.{
  Option, append_assoc, get_elem?-get_or, get_or, ap₂, false, ltb→lt, inl, ◌⊎◌, true, drop-drop,
  inr, sym, ltb, Bool-cases, ◌&&◌, get_elem?, ◌∙◌, le→leb, refl, zero, length-drop, length-take, ap,
  ◌-◌, suc, drop, take, ◌+◌, ℕ, some, List, [], ◌∷◌, ◌++◌, ◌≡◌, ◌<◌, ◌≤◌, length, arith,
}
use structlog.Level.{rank}
use structlog.LogMsg.{LogMsg}
use structlog.AnsiColor.{AnsiColorSink, reset, print_message, print_range, print_ccode, log}

-- The three parts of a text around a range.
pub record Parts (text : List ℕ) (start end : ℕ) : Type 0 where
  pub before : List ℕ
  pub inside : List ℕ
  pub after : List ℕ
  pub whole : before ++ (inside ++ after) ≡ text
  pub starts : length before ≡ start
  pub ends : length before + length inside ≡ end

take-drop : (n : ℕ) (xs : List ℕ) → take n xs ++ drop n xs ≡ xs
take-drop zero xs = refl
take-drop (suc n) [] = refl
take-drop (suc n) (x ∷ xs) = ap (◌∷◌ x) (take-drop n xs)

take_all : (n : ℕ) (xs : List ℕ) → length xs ≤ n → take n xs ≡ xs
take_all zero [] l = refl
take_all zero (x ∷ xs) l = absurd (omega arith)
take_all (suc n) [] l = refl
take_all (suc n) (x ∷ xs) l = ap (◌∷◌ x) (take_all n xs (omega arith))

parts : (text : List ℕ) (start end : ℕ) → start ≤ end → end ≤ length text → Parts text start end
parts text start end l1 l2 = record {
  before = take start text;
  inside = take (end - start) (drop start text);
  after = drop end text;
  whole =
      ap (λ t. take start text ++ (take (end - start) (drop start text) ++ t))
        (ap (λ k. drop k text) {x = end} {y = (end - start) + start} (omega arith)
          ∙ sym (drop-drop (end - start) start text))
      ∙ ap (λ t. take start text ++ t) (take-drop (end - start) (drop start text))
      ∙ take-drop start text;
  starts = omega (arith, length-take start text);
  ends = omega (
    arith,
    length-take start text,
    length-take (end - start) (drop start text),
    length-drop start text,
  );
}

all_of : (text : List ℕ) → take (length text - 0) (drop 0 text) ≡ text
all_of text = take_all (length text - 0) text (omega arith)

module _ {Fm : Type 0} where
  print_range_lem :
      (text : List ℕ) (start end : ℕ) (s : AnsiColorSink Fm)
      → start ≤ end
      → end ≤ length text
      → print_range text start end s
        ≡ some (record s { target_file = s.target_file ++ take (end - start) (drop start text) })
  unfolding print_range
  print_range_lem text start end s l1 l2 = rw (le→leb _ _ l1, le→leb _ _ l2) refl

  -- What is written of a text with the range of `msg`: the color of the level around the range,
  -- where colors are on and the range is not empty, and else the text as it is.
  abbrev pub Written : AnsiColorSink Fm → List ℕ → LogMsg → List ℕ → Type 0
  Written s text msg out =
      ((s.should_do_colors && ltb msg.color_range_start msg.color_range_end ≡ true)
        × (color : List ℕ) × (get_elem? s.colors (rank msg.level) ≡ some color)
        × (p : Parts text msg.color_range_start msg.color_range_end) × (out
            ≡ p.before ++ (color ++ (p.inside ++ (reset ++ p.after)))))
      ⊎ ((s.should_do_colors && ltb msg.color_range_start msg.color_range_end ≡ false)
          × (out ≡ text))

  print_message_lem :
      (s : AnsiColorSink Fm) (text : List ℕ) (msg : LogMsg) (color : List ℕ)
      → msg.color_range_end ≤ length text
      → get_elem? s.colors (rank msg.level) ≡ some color
      → (out : List ℕ) × (print_message text msg s
          ≡ some (record s { target_file = s.target_file ++ out }))
        × Written s text msg out
  unfolding print_message print_ccode parts
  print_message_lem s text msg color l ec =
      elim (Bool-cases (s.should_do_colors && ltb msg.color_range_start msg.color_range_end)) [
        | inr e ↦ (
          text,
          rw (e, print_range_lem text 0 (length text) s (omega arith) (omega arith))
              (ap (λ t. some (record s { target_file = s.target_file ++ t })) (all_of text)),
          inr (e, refl),
        )
        | inl e ↦
            let lt = ltb→lt msg.color_range_start msg.color_range_end (ground (arith, e)) in
            let p = parts text msg.color_range_start msg.color_range_end (omega arith) l in
            let first = take (msg.color_range_start - 0) (drop 0 text) in
            let s1 = record s { target_file = s.target_file ++ first ++ color } in
            let s2 = record s {
              target_file = s.target_file ++ first ++ color ++ p.inside ++ reset;
            } in
            (
              p.before ++ (color ++ (p.inside ++ (reset ++ p.after))),
              rw
                  (
                    e,
                    print_range_lem text 0 msg.color_range_start s (omega arith) (omega arith),
                    ec,
                    print_range_lem text msg.color_range_start msg.color_range_end s1 (omega arith)
                        l,
                    print_range_lem text msg.color_range_end (length text) s2 l (omega arith),
                  )
                  (ap (λ t. some (record s { target_file = t }))
                    (ap₂ (λ f a. s.target_file ++ f ++ color ++ p.inside ++ reset ++ a) {x = first}
                        (ap₂ take {x = msg.color_range_start - 0} {y = msg.color_range_start}
                          {u = drop 0 text} (omega arith) refl)
                        (take_all (length text - msg.color_range_end)
                          (drop msg.color_range_end text)
                          (omega (arith, length-drop msg.color_range_end text)))
                      ∙ simp append_assoc)),
              inl (e, color, ec, p, refl),
            )
      ]

  -- A message whose range ends in its formatted text is printed whole: where colors are on and
  -- the range is not empty, with the color of its level before the range and the reset after
  -- it, and else as it is. The array of colors has one for the level of the message.
  pub log-Written :
      (format : Fm → LogMsg → Option (List ℕ × LogMsg × Fm)) (msg msg' : LogMsg)
      (s : AnsiColorSink Fm) (text : List ℕ) (formatter' : Fm)
      → format s.formatter (record msg { color_range_start = 0; color_range_end = 0 })
        ≡ some (text, msg', formatter')
      → rank msg'.level < length s.colors
      → msg'.color_range_end ≤ length text
      → (out : List ℕ) × (log format msg s
          ≡ some (msg', record s { formatter = formatter'; target_file = s.target_file ++ out }))
        × Written s text msg' out
  unfolding log
  log-Written format msg msg' s text formatter' ef few l =
      let (out, e, w) =
        print_message_lem (record s { formatter = formatter' }) text msg'
          (get_or s.colors (rank msg'.level) []) l
          (get_elem?-get_or s.colors (rank msg'.level) [] few) in
      (out, rw (ef, e) refl, w)
