-- ===== src/Texts/Trim.antt =====
-- Equality of texts, and what `trim` leaves.
use fetchit_be.Base.{ℕ, Bool, true, [], ◌∷◌, ◌≡◌, refl, arith, ap, ◌∙◌}
use fetchit_be.Texts.{Text, text_eq, is_space, drop_start, drop_end, trim}

pub text_eq_refl : (s : Text) → text_eq s s ≡ true
unfolding text_eq
text_eq_refl [] = refl
text_eq_refl (c ∷ s) = ground (arith, text_eq_refl s)

pub text_eq_sound : (s t : Text) → text_eq s t ≡ true → s ≡ t
unfolding text_eq
text_eq_sound [] [] h = refl
text_eq_sound [] (d ∷ t) h = absurd (cc)
text_eq_sound (c ∷ s) [] h = absurd (cc)
text_eq_sound (c ∷ s) (d ∷ t) h = ground (arith, text_eq_sound s t)

module _ (strip : ℕ → Bool) where
  drop_end_idem : (s : Text) → drop_end strip (drop_end strip s) ≡ drop_end strip s
  unfolding drop_end
  drop_end_idem [] = refl
  drop_end_idem (c ∷ s) = ground (arith, drop_end_idem s)

  -- What the start keeps, the end may cut, but its first unit stays.
  drop_start-drop_end :
      (s : Text)
      → drop_start strip (drop_end strip (drop_start strip s)) ≡ drop_end strip (drop_start strip s)
  unfolding drop_start drop_end
  drop_start-drop_end [] = refl
  drop_start-drop_end (c ∷ s) = ground (arith, drop_start-drop_end s)

pub trim_idem : (s : Text) → trim (trim s) ≡ trim s
unfolding trim
trim_idem s =
    ap (drop_end is_space) (drop_start-drop_end is_space s)
    ∙ drop_end_idem is_space (drop_start is_space s)
