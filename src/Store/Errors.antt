-- ===== src/Store/Errors.antt =====
-- `isUnique` and `contains` of internal/storage/postgres.go. A text is the list of its characters'
-- codes, in which a substring stands where its bytes stand in the bytes of the text.
use run_mesh.Base.{
  ℕ, Bool, true, false, ◌&&◌, ◌||◌, ◌≡◌, ◌↔◌, refl, sym, subst, ap, List, [], ◌∷◌, ◌++◌, ◌==◌,
  ==_iff, ==_refl, arith, Bool-cases, inl, inr, Error, not_found, conflict, lease_lost, other,
}
use run_mesh.Workflow.Dag.{codes}

-- `s[i:i+len(sub)] == sub`, at the start of what is left of `s`.
unfoldable pub starts_with : List ℕ → List ℕ → Bool
starts_with [] s = true
starts_with (c ∷ sub) [] = false
starts_with (c ∷ sub) (x ∷ s) = c == x && starts_with sub s

unfoldable pub contains : List ℕ → List ℕ → Bool
unfolding starts_with
contains [] sub = starts_with sub []
contains (x ∷ s) sub = starts_with sub (x ∷ s) || contains s sub

abbrev pub duplicate_key : Error
duplicate_key = other "duplicate key value violates unique constraint (SQLSTATE 23505)"

unfoldable pub is_unique : Error → Bool
unfolding contains
is_unique conflict = true
is_unique not_found = contains (codes "not found") (codes "SQLSTATE 23505")
is_unique lease_lost = contains (codes "lease lost") (codes "SQLSTATE 23505")
is_unique (other message) = contains (codes message) (codes "SQLSTATE 23505")

starts_with-split :
    (sub s : List ℕ) → starts_with sub s ≡ true → (rest : List ℕ) × (s ≡ sub ++ rest)
unfolding starts_with
starts_with-split [] s h = (s, refl)
starts_with-split (c ∷ sub) [] h = absurd (cc)
starts_with-split (c ∷ sub) (x ∷ s) h =
    let (rest, same) = starts_with-split sub s (ground arith) in
    let here : c ≡ x = (==_iff c x).0 (ground arith) in (rest, rw (sym here, same) refl)

starts_with-append : (sub rest : List ℕ) → starts_with sub (sub ++ rest) ≡ true
unfolding starts_with
starts_with-append [] rest = refl
starts_with-append (c ∷ sub) rest = rw (==_refl c, starts_with-append sub rest) refl

contains-starts_with : (s sub : List ℕ) → starts_with sub s ≡ true → contains s sub ≡ true
unfolding contains
contains-starts_with [] sub h = h
contains-starts_with (x ∷ s) sub h = rw h refl

contains-split :
    (s sub : List ℕ)
    → contains s sub ≡ true
    → (before : List ℕ) × (after : List ℕ) × (s ≡ before ++ (sub ++ after))
unfolding contains
contains-split [] sub h = let (rest, same) = starts_with-split sub [] h in ([], rest, same)
contains-split (x ∷ s) sub h = elim (Bool-cases (starts_with sub (x ∷ s))) [
  | inl hit ↦ let (rest, same) = starts_with-split sub (x ∷ s) hit in ([], rest, same)
  | inr miss ↦
      let (before, after, same) = contains-split s sub (ground arith) in
      (x ∷ before, after, ap (◌∷◌ x) same)
]

contains-append : (before sub after : List ℕ) → contains (before ++ (sub ++ after)) sub ≡ true
unfolding contains
contains-append [] sub after =
    contains-starts_with (sub ++ after) sub (starts_with-append sub after)
contains-append (x ∷ before) sub after =
    elim (Bool-cases (starts_with sub (x ∷ (before ++ (sub ++ after))))) [
      | inl hit ↦ rw hit refl
      | inr miss ↦ rw miss (contains-append before sub after)
    ]

-- `contains` finds a text in another exactly if the other is the text with something, or nothing, before
-- and after it.
pub contains_iff :
    (s sub : List ℕ)
    → (contains s sub ≡ true)
      ↔ ((before : List ℕ) × (after : List ℕ) × (s ≡ before ++ (sub ++ after)))
contains_iff s sub = (
  contains-split s sub,
  λ (before, after, same).
      subst (λ t. contains t sub ≡ true) (sym same) (contains-append before sub after),
)
