-- ===== src/LogMsgBuffer/Texts.antt =====
-- The texts of a message with a buffer of its own.
use structlog.Common.{
  eq→==true, ne→==false, ℕ, zero, suc, List, [], ◌∷◌, ◌++◌, ◌≡◌, ◌≢◌, length, take, drop, ap, ap₂,
  refl, sym, ◌∙◌, arith,
}
use structlog.LogMsgBuffer.{
  Store, read, write, Msg, update_string_views, of_msg, move, assign_copy, assign_move,
}

write-here : (a : ℕ) (text : List ℕ) (st : Store) → write a text st a ≡ text
write-here a text st = rw (eq→==true a a refl) refl

write-other : (a b : ℕ) (text : List ℕ) (st : Store) → b ≢ a → write a text st b ≡ st b
write-other a b text st ne = rw (ne→==false b a ne) refl

take_prefix : (xs ys : List ℕ) (n : ℕ) → n ≡ length xs → take n (xs ++ ys) ≡ xs
take_prefix [] ys n e = ap (λ k. take k ys) {x = n} {y = 0} e
take_prefix (x ∷ xs) ys zero e = absurd (omega arith)
take_prefix (x ∷ xs) ys (suc n) e = ap (◌∷◌ x) (take_prefix xs ys n (omega arith))

drop_prefix : (xs ys : List ℕ) (n : ℕ) → n ≡ length xs → drop n (xs ++ ys) ≡ ys
drop_prefix [] ys n e = ap (λ k. drop k ys) {x = n} {y = 0} e
drop_prefix (x ∷ xs) ys zero e = absurd (omega arith)
drop_prefix (x ∷ xs) ys (suc n) e = drop_prefix xs ys n (omega arith)

take_whole : (xs : List ℕ) (n : ℕ) → n ≡ length xs → take n xs ≡ xs
take_whole [] zero e = refl
take_whole [] (suc n) e = refl
take_whole (x ∷ xs) zero e = absurd (omega arith)
take_whole (x ∷ xs) (suc n) e = ap (◌∷◌ x) (take_whole xs n (omega arith))

module _ {A : Type 0} where
  -- The two texts that a message shows.
  abbrev pub texts : Msg A → Store → List ℕ × List ℕ
  texts m st = (read st m.logger_name, read st m.payload)

  -- The views lie in what they look at.
  pub record Valid (m : Msg A) (st : Store) : Type 0 where
    pub name_in : length (read st m.logger_name) ≡ m.logger_name.size
    pub payload_in : length (read st m.payload) ≡ m.payload.size

  -- The buffer at `a` holds the texts one after the other, and the views are there.
  pub record Owns (a : ℕ) (m : Msg A) (st : Store) : Type 0 where
    pub name_text : List ℕ
    pub payload_text : List ℕ
    pub buffer : st a ≡ name_text ++ payload_text
    pub name_view : m.logger_name ≡ record { base = a; offset = 0; size = length name_text }
    pub payload_view :
        m.payload ≡ record { base = a; offset = length name_text; size = length payload_text }

  texts-Owns :
      (a : ℕ) (m : Msg A) (st : Store) (h : Owns a m st)
      → texts m st ≡ (h.name_text, h.payload_text)
  texts-Owns a m st h =
      ap₂ (λ x y. (x, y))
        (ap (read st) h.name_view
          ∙ ap (λ t. take (length h.name_text) t) h.buffer
          ∙ take_prefix h.name_text h.payload_text _ refl)
        (ap (read st) h.payload_view
          ∙ ap (λ t. take (length h.payload_text) (drop (length h.name_text) t)) h.buffer
          ∙ ap (take (length h.payload_text)) (drop_prefix h.name_text h.payload_text _ refl)
          ∙ take_whole h.payload_text _ refl)

  -- A message that has a buffer of its own from now on, whose texts are those of `orig` in
  -- `st`: they stay the same, whatever becomes of the other buffers.
  abbrev pub Keeps : ℕ → Msg A → Store → Msg A × Store → Type 0
  Keeps a orig st (m, st') =
      Owns a m st' × ((later : Store) → later a ≡ st' a → texts m later ≡ texts orig st)

  Keeps-Owns :
      (a : ℕ) (orig m : Msg A) (st st' : Store) (h : Owns a m st')
      → (h.name_text, h.payload_text) ≡ texts orig st
      → Keeps a orig st (m, st')
  Keeps-Owns a orig m st st' h e = (
    h,
    λ later el.
        texts-Owns a m later (record {
          name_text = h.name_text;
          payload_text = h.payload_text;
          buffer = el ∙ h.buffer;
          name_view = h.name_view;
          payload_view = h.payload_view;
        })
        ∙ e,
  )

  of_msg-Keeps :
      (a : ℕ) (orig : Msg A) (st : Store) → Valid orig st → Keeps a orig st (of_msg a orig st)
  unfolding of_msg update_string_views
  of_msg-Keeps a orig st v =
      Keeps-Owns a orig _ st _
        (record {
          name_text = read st orig.logger_name;
          payload_text = read st orig.payload;
          buffer = write-here a (read st orig.logger_name ++ read st orig.payload) st;
          name_view = ap (λ n. record { base = a; offset = 0; size = n }) (sym v.name_in);
          payload_view =
              ap₂ (λ o n. record { base = a; offset = o; size = n }) (sym v.name_in)
                (sym v.payload_in);
        })
        refl

  -- The buffer of another message, taken over.
  taken-Owns :
      (a b : ℕ) (other : Msg A) (st st' : Store) (h : Owns b other st)
      → st' a ≡ st b
      → Keeps a other st (update_string_views a other, st')
  unfolding update_string_views
  taken-Owns a b other st st' h e =
      Keeps-Owns a other _ st st'
        (record {
          name_text = h.name_text;
          payload_text = h.payload_text;
          buffer = e ∙ h.buffer;
          name_view = ap (λ v. record { base = a; offset = 0; size = v.size }) h.name_view;
          payload_view =
              ap₂ (λ v w. record { base = a; offset = v.size; size = w.size }) h.name_view
                h.payload_view;
        })
        (sym (texts-Owns b other st h))

  -- The two constructors and the two assignments give a message the texts of the one that they
  -- take, in its own buffer: the texts stay the same whatever becomes of all other buffers. The
  -- views of the message that is taken lie in the texts that they look at; what is moved or
  -- assigned is another message, with a buffer of its own, and a move may leave anything there.
  pub log_msg_buffer-Keeps :
      (a b : ℕ) (moved_from : List ℕ) (orig other : Msg A) (st : Store)
      → Valid orig st
      → Owns b other st
      → a ≢ b
      → Keeps a orig st (of_msg a orig st)
        × Keeps a other st (move a b moved_from other st)
        × Keeps a other st (assign_copy a b other st)
        × Keeps a other st (assign_move a b moved_from other st)
  unfolding move assign_copy assign_move
  log_msg_buffer-Keeps a b moved_from orig other st v h ne = (
    of_msg-Keeps a orig st v,
    taken-Owns a b other st _ h moved,
    taken-Owns a b other st _ h copied,
    taken-Owns a b other st _ h moved,
  )
    where
      moved : write b moved_from (write a (st b) st) a ≡ st b
      moved = write-other b a moved_from (write a (st b) st) ne ∙ write-here a (st b) st

      copied : (assign_copy a b other st).1 a ≡ st b
      copied =
          write-here a _ (write a [] st)
          ∙ ap₂ ◌++◌ (write-here a [] st) (write-other a b [] st (λ e. ne (sym e)))
