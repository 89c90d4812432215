-- ===== src/Auth/Text.antt =====
-- The functions of Go's package strings that the handlers and the authenticator call, on texts as the
-- lists of the codes of their characters.
use run_mesh.Base.{
  ℕ, zero, suc, Bool, true, false, ◌&&◌, ◌≡◌, refl, Option, none, some, List, [], ◌∷◌, ◌++◌, ◌==◌,
  if◌then◌else◌, arith, ==_refl, Bool-cases, Option-cases, inl, inr,
}
use run_mesh.Base.Strings.{is_space}

abbrev pub Text : Type 0
Text = List ℕ

abbrev pub is_empty : Text → Bool
is_empty [] = true
is_empty (c ∷ s) = false

unfoldable pub text_eq : Text → Text → Bool
text_eq [] [] = true
text_eq [] (d ∷ t) = false
text_eq (c ∷ s) [] = false
text_eq (c ∷ s) (d ∷ t) = c == d && text_eq s t

-- What follows a prefix, if the text has it: `strings.HasPrefix` with `strings.TrimPrefix`.
unfoldable pub after_prefix : Text → Text → Option Text
after_prefix [] s = some s
after_prefix (c ∷ prefix) [] = none
after_prefix (c ∷ prefix) (x ∷ s) =
    let rest = after_prefix prefix s in if c == x then rest else none

unfoldable pub trim_left : Text → Text
unfolding is_space
trim_left [] = []
trim_left (c ∷ s) = let rest = trim_left s in if is_space c then rest else c ∷ s

unfoldable pub trim_right : Text → Text
unfolding is_space
trim_right [] = []
trim_right (c ∷ s) = let rest = trim_right s in if is_space c && is_empty rest then [] else c ∷ rest

-- `strings.TrimSpace`
unfoldable pub trim_space : Text → Text
unfolding trim_left trim_right
trim_space s = trim_right (trim_left s)

-- A text up to the first of a separator, and what follows it.
unfoldable pub cut : ℕ → Text → Option (Text × Text)
cut sep [] = none
cut sep (c ∷ s) =
    let rest = cut sep s in
    if c == sep
    then some ([], s)
    else elim rest [ none ↦ none | some (before, after) ↦ some (c ∷ before, after) ]

-- `strings.SplitN`
unfoldable pub split_n : ℕ → ℕ → Text → List Text
split_n sep zero s = []
split_n sep (suc zero) s = s ∷ []
split_n sep (suc (suc n)) s = elim (cut sep s) [
  | none ↦ s ∷ []
  | some (before, after) ↦ before ∷ split_n sep (suc n) after
]

abbrev push : ℕ → List Text → List Text
push c [] = (c ∷ []) ∷ []
push c (part ∷ parts) = (c ∷ part) ∷ parts

-- `strings.Split`
unfoldable pub split : ℕ → Text → List Text
split sep [] = [] ∷ []
split sep (c ∷ s) = let rest = split sep s in if c == sep then [] ∷ rest else push c rest

-- A text before the separator that has none is what a cut finds.
pub cut-append :
    (sep : ℕ) (s rest : Text) → cut sep s ≡ none → cut sep (s ++ sep ∷ rest) ≡ some (s, rest)
unfolding cut
cut-append sep [] rest h = rw (==_refl sep) refl
cut-append sep (c ∷ s) rest h = elim (Bool-cases (c == sep)) [
  | inl hit ↦ absurd (ground arith)
  | inr miss ↦ elim (Option-cases (cut sep s)) [
    | inl none_left ↦ rw (miss, cut-append sep s rest none_left) refl
    | inr found ↦ absurd (ground arith)
  ]
]
