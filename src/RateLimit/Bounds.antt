-- ===== src/RateLimit/Bounds.antt =====
-- What the script of internal/ratelimit/limiter.go keeps in a bucket.
use run_mesh.Base.{ℕ, ◌≤◌, true, ◌≡◌, Option, none, some, List, [], ◌∷◌}
use run_mesh.Base.Int.{ℤ, pos, negsuc}
use run_mesh.RateLimit.Bucket.{Numbers, Limit, Instant, Bucket, run_script}

-- At most so many.
abbrev pub IsAtMost : ℕ → ℤ → Type 0
IsAtMost b (pos r) = r ≤ b
IsAtMost b (negsuc r) = Unit

-- What IEEE 754 and Lua's manual say of finite doubles; the numbers of the script stay far from
-- overflow. Rounding keeps the order, so that results of the right sign stay on their side of 0 and of
-- the operands, and a text of 14 digits or more has integers up to 10^14 exactly.
pub record Laws (n : Numbers) : Type 0 where
  pub trans : (a b c : n.Number) → n.le a b ≡ true → n.le b c ≡ true → n.le a c ≡ true
  pub refl_le : (a : n.Number) → n.le a a ≡ true
  pub of_ℕ-le : (a b : ℕ) → a ≤ b → n.le (n.of_ℕ a) (n.of_ℕ b) ≡ true
  pub min_left : (a b : n.Number) → n.le (n.min a b) a ≡ true
  pub min_glb : (a b c : n.Number) → n.le c a ≡ true → n.le c b ≡ true → n.le c (n.min a b) ≡ true
  pub max_left : (a b : n.Number) → n.le a (n.max a b) ≡ true
  pub mul_positive :
      (a b : n.Number)
      → n.le (n.of_ℕ 0) a ≡ true
      → n.le (n.of_ℕ 0) b ≡ true
      → n.le (n.of_ℕ 0) (n.mul a b) ≡ true
  pub add_grows : (a b : n.Number) → n.le (n.of_ℕ 0) b ≡ true → n.le a (n.add a b) ≡ true
  pub sub_positive : (a b : n.Number) → n.le b a ≡ true → n.le (n.of_ℕ 0) (n.sub a b) ≡ true
  pub sub_shrinks : (a b : n.Number) → n.le (n.of_ℕ 0) b ≡ true → n.le (n.sub a b) a ≡ true
  pub stored_mono : (a b : n.Number) → n.le a b ≡ true → n.le (n.stored a) (n.stored b) ≡ true
  pub stored_exact : (a : ℕ) → a ≤ 100000000000000 → n.stored (n.of_ℕ a) ≡ n.of_ℕ a
  pub floor_le : (a : n.Number) (b : ℕ) → n.le a (n.of_ℕ b) ≡ true → IsAtMost b (n.floor a)

module _ (n : Numbers) where
  -- Between nothing and the burst.
  abbrev pub IsWithin : Limit → n.Number → Type 0
  IsWithin l tokens = (n.le (n.of_ℕ 0) tokens ≡ true) × (n.le tokens (n.of_ℕ l.burst) ≡ true)

  abbrev pub IsFilled : Limit → Option (Bucket n) → Type 0
  IsFilled l none = Unit
  IsFilled l (some b) = IsWithin l b.tokens

  -- The bucket after some requests, and what the last of them was told.
  unfoldable pub after_requests : Limit → Option (Bucket n) → List Instant → Option (Bucket n)
  unfolding run_script
  after_requests l found [] = found
  after_requests l found (t ∷ later) = after_requests l (some (run_script n l t found).1) later
