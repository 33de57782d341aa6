-- ===== src/Uploads/FileName.antt =====
-- sanitizeFileName of src/common/utils/file-type.util.ts, and what it lets through.
use fetchit_be.Base.{
  ℕ, zero, suc, ◌≤◌, Bool, true, false, not, Option, none, some, [], ◌∷◌, ◌++◌, ◌==◌, ◌||◌, ◌≡◌,
  ◌⊎◌, inl, inr, refl, arith, leb, length, map, filter_where, if◌then◌else◌, All, Bool-cases, ap,
  ◌∙◌, sym,
}
use mathlib.Core.List.{append-nil, append_assoc}
use fetchit_be.Texts.{Text, is_empty, is_space, drop_start, drop_end, trim}
use fetchit_be.Storage.Keys.{is_alphanumeric}
use fetchit_be.Uploads.FileType.{take}

-- What follows the last separator, as `split(/[\\/]/).pop()`.
unfoldable pub base_name : Text → Text → Text
base_name part [] = part
base_name part (c ∷ s) = base_name (if c == b'/' || c == b'\\' then [] else part ++ c ∷ []) s

abbrev pub is_control : ℕ → Bool
is_control c = leb c 0x1f || c == 0x7f

abbrev pub is_name_char : ℕ → Bool
is_name_char c = is_alphanumeric c || c == b'.' || c == b'_' || c == b'-'

abbrev pub tidy : ℕ → ℕ
tidy c = if is_name_char c then c else b'_'

abbrev pub is_dot : ℕ → Bool
is_dot c = c == b'.'

unfoldable pub clean : Text → Text
clean base =
    take 200 (trim (drop_start is_dot (map tidy (filter_where (λ c. not (is_control c)) base))))

unfoldable pub sanitize_file_name : Option Text → Text → Text
unfolding clean base_name
sanitize_file_name none fallback = fallback
sanitize_file_name (some name) fallback =
    if is_empty name
    then fallback
    else (let cleaned = clean (base_name [] name) in if is_empty cleaned then fallback else cleaned)

abbrev pub starts_with_dot : Text → Bool
starts_with_dot [] = false
starts_with_dot (c ∷ s) = is_dot c

abbrev pub IsName : Text → Type 0
IsName s = All (λ c. is_name_char c ≡ true) s

-- A label that is safe to show: letters, digits, '.', '_' and '-' only, no dot in front, not empty,
-- and of at most 200 units.
pub record IsLabel (s : Text) : Type 0 where
  pub names : IsName s
  pub undotted : starts_with_dot s ≡ false
  pub some_unit : is_empty s ≡ false
  pub short : length s ≤ 200

tidied : (s : Text) → IsName (map tidy s)
tidied [] = tt
tidied (c ∷ s) = (ground arith, tidied s)

drop_dots :
    (s : Text)
    → IsName s
    → IsName (drop_start is_dot s) × (starts_with_dot (drop_start is_dot s) ≡ false)
unfolding drop_start
drop_dots [] h = (tt, refl)
drop_dots (c ∷ s) (n, h) = elim (Bool-cases (is_dot c)) [
  | inl t ↦ rw t (drop_dots s h)
  | inr t ↦ rw t ((n, h), t)
]

-- Names have no white space, so trimming leaves them.
name_no_space : (c : ℕ) → is_name_char c ≡ true → is_space c ≡ false
name_no_space c h = ground arith

drop_end_name : (s : Text) → IsName s → drop_end is_space s ≡ s
unfolding drop_end
drop_end_name [] h = refl
drop_end_name (c ∷ s) (n, h) = rw (name_no_space c n, drop_end_name s h) refl

trim_name : (s : Text) → IsName s → trim s ≡ s
unfolding trim drop_start
trim_name [] h = drop_end_name [] h
trim_name (c ∷ s) (n, h) = rw (name_no_space c n) (drop_end_name (c ∷ s) (n, h))

take-IsName : (k : ℕ) (s : Text) → IsName s → IsName (take k s) × (length (take k s) ≤ k)
take-IsName zero s h = (tt, omega arith)
take-IsName (suc k) [] h = (tt, omega arith)
take-IsName (suc k) (c ∷ s) (n, h) =
    let (names, short) = take-IsName k s h in ((n, names), omega arith)

take_short : (k : ℕ) (s : Text) → length s ≤ k → take k s ≡ s
take_short zero [] h = refl
take_short zero (c ∷ s) h = absurd (omega arith)
take_short (suc k) [] h = refl
take_short (suc k) (c ∷ s) h = ap (λ (z : Text). c ∷ z) (take_short k s (omega arith))

-- What is cleaned is a label, or empty.
clean-IsLabel : (base : Text) → (is_empty (clean base) ≡ true) ⊎ IsLabel (clean base)
unfolding clean trim drop_end drop_start
clean-IsLabel base = go (drop_start is_dot tidy_base) (drop_dots tidy_base (tidied _))
  where
    tidy_base : Text
    tidy_base = map tidy (filter_where (λ c. not (is_control c)) base)

    go :
        (s : Text)
        → IsName s × (starts_with_dot s ≡ false)
        → (is_empty (take 200 (trim s)) ≡ true) ⊎ IsLabel (take 200 (trim s))
    go [] h = inl refl
    go (c ∷ s) (names, undotted) =
        let (kept, short) = take-IsName 200 (c ∷ s) names in
        rw (trim_name (c ∷ s) names)
          (inr (record { names = kept; undotted = undotted; some_unit = refl; short = short }))

base_name_name : (part s : Text) → IsName s → base_name part s ≡ part ++ s
unfolding base_name
base_name_name part [] h = sym (append-nil part)
base_name_name part (c ∷ s) (n, h) =
    let other : (c == b'/' || c == b'\\') ≡ false = ground arith in
    rw other (base_name_name (part ++ c ∷ []) s h ∙ append_assoc part (c ∷ []) s)

kept_name : (s : Text) → IsName s → filter_where (λ c. not (is_control c)) s ≡ s
unfolding filter_where
kept_name [] h = refl
kept_name (c ∷ s) (n, h) =
    let printed : is_control c ≡ false = ground arith in rw (printed, kept_name s h) refl

tidy_name : (s : Text) → IsName s → map tidy s ≡ s
tidy_name [] h = refl
tidy_name (c ∷ s) (n, h) = rw (n, tidy_name s h) refl

keep_start : (s : Text) → starts_with_dot s ≡ false → drop_start is_dot s ≡ s
unfolding drop_start
keep_start [] h = refl
keep_start (c ∷ s) h = rw h refl

-- A label is left as it is.
clean_label : (s : Text) → IsLabel s → clean s ≡ s
unfolding clean
clean_label s l =
    ap (λ z. take 200 (trim (drop_start is_dot (map tidy z)))) (kept_name s l.names)
    ∙ ap (λ z. take 200 (trim (drop_start is_dot z))) (tidy_name s l.names)
    ∙ ap (λ z. take 200 (trim z)) (keep_start s l.undotted)
    ∙ ap (take 200) (trim_name s l.names)
    ∙ take_short 200 s l.short

sanitize_label : (s fallback : Text) → IsLabel s → sanitize_file_name (some s) fallback ≡ s
unfolding sanitize_file_name
sanitize_label s fallback l =
    let based = ap clean (base_name_name [] s l.names) ∙ clean_label s l in
    rw (l.some_unit, based, l.some_unit) refl

sanitize-IsLabel :
    (name : Option Text) (fallback : Text)
    → IsLabel fallback
    → IsLabel (sanitize_file_name name fallback)
unfolding sanitize_file_name
sanitize-IsLabel none fallback l = l
sanitize-IsLabel (some name) fallback l = elim (Bool-cases (is_empty name)) [
  | inl t ↦ rw t l
  | inr t ↦ rw t (elim (Bool-cases (is_empty (clean (base_name [] name)))) [
    | inl u ↦ rw u l
    | inr u ↦ rw u (elim (clean-IsLabel (base_name [] name)) [ inl v ↦ absurd (cc) | inr v ↦ v ])
  ])
]

-- With a fallback that is a label, sanitizeFileName gives a label for every name that a client sends,
-- and sanitizing it once more changes nothing.
pub sanitize_file_name_labels :
    (name : Option Text) (fallback : Text)
    → IsLabel fallback
    → IsLabel (sanitize_file_name name fallback)
      × (sanitize_file_name (some (sanitize_file_name name fallback)) fallback
          ≡ sanitize_file_name name fallback)
sanitize_file_name_labels name fallback l =
    let label = sanitize-IsLabel name fallback l in
    (label, sanitize_label (sanitize_file_name name fallback) fallback label)
