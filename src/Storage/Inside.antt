-- ===== src/Storage/Inside.antt =====
-- A key that is allowed stays where it is put: it names no parent directory and no empty segment.
use fetchit_be.Base.{
  true, false, List, [], ◌∷◌, ◌++◌, ◌||◌, ◌≡◌, ◌↔◌, refl, arith, any_where, if◌then◌else◌, sym, ap,
  ◌∙◌,
}
use mathlib.Core.List.{reverse, reverse-append, reverse-reverse, append_assoc, append_cancel_right}
use fetchit_be.Texts.Split.{split_injective}
use fetchit_be.Texts.{Text, codes, text_eq, split}
use fetchit_be.Storage.Keys.{slash, is_safe_key, is_bad_segment}

-- How a file system reads a relative path below a directory: a stack of the directories entered,
-- the innermost first. `..` leaves one; '' and '.' stay.
abbrev enter : List Text → Text → List Text
enter stack segment =
    if text_eq segment [] || text_eq segment (codes ".")
    then stack
    else if text_eq segment (codes "..")
    then leave stack
    else segment ∷ stack
  where
    leave : List Text → List Text
    leave [] = []
    leave (top ∷ below) = below

unfoldable pub walk : List Text → List Text → List Text
walk stack [] = stack
walk stack (segment ∷ segments) = walk (enter stack segment) segments

unfoldable pub push_all : List Text → List Text → List Text
push_all stack [] = stack
push_all stack (segment ∷ segments) = push_all (segment ∷ stack) segments

walk_plain :
    (stack segments : List Text)
    → any_where is_bad_segment segments ≡ false
    → walk stack segments ≡ push_all stack segments
unfolding walk push_all any_where
walk_plain stack [] h = refl
walk_plain stack (segment ∷ segments) h = ground (arith, walk_plain (segment ∷ stack) segments)

push_all-append : (stack segments : List Text) → push_all stack segments ≡ reverse segments ++ stack
unfolding push_all
push_all-append stack [] = refl
push_all-append stack (segment ∷ segments) =
    push_all-append (segment ∷ stack) segments
    ∙ sym (
        ap (λ z. z ++ stack) (reverse-append (segment ∷ []) segments)
        ∙ append_assoc (reverse segments) (segment ∷ []) stack)

push_all_injective : (stack xs ys : List Text) → push_all stack xs ≡ push_all stack ys → xs ≡ ys
push_all_injective stack xs ys e =
    sym (reverse-reverse xs)
    ∙ ap reverse (
        append_cancel_right (reverse xs) (reverse ys) stack
          (sym (push_all-append stack xs) ∙ e ∙ push_all-append stack ys))
    ∙ reverse-reverse ys

safe_segments :
    (key : Text) → is_safe_key key ≡ true → any_where is_bad_segment (split slash key) ≡ false
unfolding is_safe_key
safe_segments key h = ground arith

-- A key that assertSafeStorageKey accepts is read below any directory by entering its segments in
-- turn, so it never leaves that directory, and two keys that are accepted and lead to the same place
-- are the same key.
pub safe_keys_stay_apart :
    (root : List Text) (key other : Text)
    → is_safe_key key ≡ true
    → is_safe_key other ≡ true
    → (walk root (split slash key) ≡ push_all root (split slash key))
      × (walk root (split slash key) ≡ walk root (split slash other) ↔ (key ≡ other))
safe_keys_stay_apart root key other h k =
    let plain = walk_plain root (split slash key) (safe_segments key h) in
    let plain' = walk_plain root (split slash other) (safe_segments other k) in
    (
      plain,
      (
        λ e. split_injective slash key other (
            push_all_injective root (split slash key) (split slash other) (sym plain ∙ e ∙ plain')),
        λ e. ap (λ z. walk root (split slash z)) e,
      ),
    )
