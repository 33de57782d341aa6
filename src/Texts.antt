-- ===== src/Texts.antt =====
-- Texts as lists of UTF-16 code units, with the methods of JavaScript strings that the code uses on
-- paths and settings.
pub mod Trim
pub mod Split
mod Tests
use Prim.Native.Char.{code}
use Prim.Native.String.{String}
use fetchit_be.Base.{
  ℕ, Bool, true, false, not, List, [], ◌∷◌, ◌==◌, ◌&&◌, ◌||◌, leb, any_where, filter_where,
  if◌then◌else◌, Option, none, some,
}

abbrev pub Text : Type 0
Text = List ℕ

-- The text of a literal.
abbrev pub codes : String → Text
codes String.[] = []
codes (String.◌∷◌ c s) = code c ∷ codes s

abbrev pub is_empty {ℓ} : {A : Type ℓ} → List A → Bool
is_empty [] = true
is_empty (x ∷ xs) = false

-- `===`
unfoldable pub text_eq : Text → Text → Bool
text_eq [] [] = true
text_eq [] (d ∷ t) = false
text_eq (c ∷ s) [] = false
text_eq (c ∷ s) (d ∷ t) = c == d && text_eq s t

-- `texts.includes(text)`
abbrev pub has_text : Text → List Text → Bool
has_text text texts = any_where (λ t. text_eq t text) texts

-- The white space and line ends that `trim` strips.
abbrev pub is_space : ℕ → Bool
is_space c =
    leb 9 c && leb c 13
    || c == 32
    || c == 160
    || c == 5760
    || leb 8192 c && leb c 8202
    || c == 8232
    || c == 8233
    || c == 8239
    || c == 8287
    || c == 12288
    || c == 65279

module _ (strip : ℕ → Bool) where
  unfoldable pub drop_start : Text → Text
  drop_start [] = []
  drop_start (c ∷ s) = if strip c then drop_start s else c ∷ s

  unfoldable pub drop_end : Text → Text
  drop_end [] = []
  drop_end (c ∷ s) = let rest = drop_end s in if strip c && is_empty rest then [] else c ∷ rest

unfoldable pub trim : Text → Text
trim s = drop_end is_space (drop_start is_space s)

-- `split`: one part more than there are separators.
abbrev pub onto_first : ℕ → List Text → List Text
onto_first c [] = (c ∷ []) ∷ []
onto_first c (part ∷ parts) = (c ∷ part) ∷ parts

unfoldable pub split : ℕ → Text → List Text
split sep [] = [] ∷ []
split sep (c ∷ s) = if c == sep then [] ∷ split sep s else onto_first c (split sep s)

-- `parts[0]`
abbrev pub first_part : List Text → Text
first_part [] = []
first_part (part ∷ parts) = part

unfoldable pub starts_with : Text → Text → Bool
starts_with s [] = true
starts_with [] (d ∷ t) = false
starts_with (c ∷ s) (d ∷ t) = c == d && starts_with s t

unfoldable pub ends_with : Text → Text → Bool
ends_with [] t = is_empty t
ends_with (c ∷ s) t = text_eq (c ∷ s) t || ends_with s t
