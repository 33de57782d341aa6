-- ===== src/Storage/Keys.antt =====
-- src/storage/storage.util.ts.
use fetchit_be.Base.{
  ℕ, Bool, false, not, [], ◌∷◌, ◌++◌, ◌==◌, ◌&&◌, ◌||◌, leb, ltb, length, any_where,
}
use fetchit_be.Texts.{Text, codes, text_eq, split, is_empty, ends_with, drop_start, drop_end}

abbrev pub slash : ℕ
slash = b'/'

-- The classes of SAFE_KEY.
abbrev pub is_alphanumeric : ℕ → Bool
is_alphanumeric c = leb b'A' c && leb c b'Z' || leb b'a' c && leb c b'z' || leb b'0' c && leb c b'9'

abbrev pub is_key_char : ℕ → Bool
is_key_char c = is_alphanumeric c || c == b'.' || c == b'_' || c == slash || c == b'-'

abbrev pub is_safe_shape : Text → Bool
is_safe_shape [] = false
is_safe_shape (c ∷ s) = is_alphanumeric c && not (any_where (λ d. not (is_key_char d)) s)

-- '', '.' and '..'
abbrev pub is_bad_segment : Text → Bool
is_bad_segment segment =
    text_eq segment [] || text_eq segment (codes ".") || text_eq segment (codes "..")

-- `assertSafeStorageKey` throws unless this holds.
unfoldable pub is_safe_key : Text → Bool
is_safe_key key = not (
    is_empty key
    || ltb 512 (length key)
    || not (is_safe_shape key)
    || ends_with key (slash ∷ [])
    || any_where is_bad_segment (split slash key))

unfoldable pub join_url : Text → Text → Text
join_url base_url key =
    drop_end (λ c. c == slash) base_url ++ slash ∷ drop_start (λ c. c == slash) key
