-- ===== src/Texts/Split.antt =====
-- The parts of a text between separators.
use fetchit_be.Base.{
  ℕ, false, List, [], ◌∷◌, ◌++◌, ◌==◌, ◌≡◌, refl, arith, Bool-cases, inl, inr, All, ap, ◌∙◌, sym,
  eq_of_==,
}
use fetchit_be.Texts.{Text, split, onto_first}

-- The separator does not occur in the text.
abbrev pub Lacks : ℕ → Text → Type 0
Lacks sep s = All (λ c. (c == sep) ≡ false) s

pub split-append : (sep : ℕ) (s t : Text) → Lacks sep s → split sep (s ++ sep ∷ t) ≡ s ∷ split sep t
unfolding split
split-append sep [] t h = ground arith
split-append sep (c ∷ s) t (n, h) = rw (n, split-append sep s t h) refl

pub split_alone : (sep : ℕ) (s : Text) → Lacks sep s → split sep s ≡ s ∷ []
unfolding split
split_alone sep [] h = refl
split_alone sep (c ∷ s) (n, h) = rw (n, split_alone sep s h) refl

-- `parts.join(sep)`
unfoldable pub join : ℕ → List Text → Text
join sep [] = []
join sep (part ∷ []) = part
join sep (part ∷ next ∷ parts) = part ++ sep ∷ join sep (next ∷ parts)

split-cases :
    (sep : ℕ) (s : Text) → (part : Text) × (parts : List Text) × (split sep s ≡ part ∷ parts)
unfolding split
split-cases sep [] = ([], [], refl)
split-cases sep (c ∷ s) = elim (Bool-cases (c == sep)) [
  | inl t ↦ ([], split sep s, rw t)
  | inr t ↦ let (part, parts, e) = split-cases sep s in (c ∷ part, parts, rw (t, e))
]

join-onto_first :
    (sep c : ℕ) (part : Text) (parts : List Text)
    → join sep (onto_first c (part ∷ parts)) ≡ c ∷ join sep (part ∷ parts)
unfolding join
join-onto_first sep c part [] = refl
join-onto_first sep c part (next ∷ parts) = refl

-- Joining the parts gives the text back.
pub join-split : (sep : ℕ) (s : Text) → join sep (split sep s) ≡ s
unfolding join split
join-split sep [] = refl
join-split sep (c ∷ s) =
    let (part, parts, e) = split-cases sep s in
    let ih : join sep (part ∷ parts) ≡ s = ap (join sep) (sym e) ∙ join-split sep s in
    elim (Bool-cases (c == sep)) [
      | inl t ↦ rw t (
          ap (λ z. join sep ([] ∷ z)) e
          ∙ ap (λ (z : Text). sep ∷ z) ih
          ∙ ap (λ (k : ℕ). k ∷ s) (sym (eq_of_== c sep t)))
      | inr t ↦ rw t (
          ap (λ z. join sep (onto_first c z)) e
          ∙ join-onto_first sep c part parts
          ∙ ap (λ (z : Text). c ∷ z) ih)
    ]

pub split_injective : (sep : ℕ) (s t : Text) → split sep s ≡ split sep t → s ≡ t
split_injective sep s t e = sym (join-split sep s) ∙ ap (join sep) e ∙ join-split sep t
