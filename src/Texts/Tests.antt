-- ===== src/Texts/Tests.antt =====
-- Examples of the methods on texts.
use fetchit_be.Base.{◌≡◌, refl, [], ◌∷◌, true, false}
use fetchit_be.Texts.{codes, split, trim, starts_with, ends_with, text_eq, drop_start, drop_end}

split_path : split b'/' (codes "a/b//") ≡ codes "a" ∷ codes "b" ∷ [] ∷ [] ∷ []
unfolding split
split_path = refl

trim_both : trim (codes " a b ") ≡ codes "a b"
unfolding trim drop_start drop_end
trim_both = refl

ends :
    (starts_with (codes "abc") (codes "ab") ≡ true)
    × (ends_with (codes "abc") (codes "bc") ≡ true)
    × (ends_with (codes "abc") (codes "b") ≡ false)
unfolding starts_with ends_with text_eq
ends = (refl, refl, refl)
