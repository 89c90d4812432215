-- ===== src/RateLimit/Examples.antt =====
-- The token bucket of internal/ratelimit/limiter.go with concrete requests.
use Prim.Native.Nat.{max}
use run_mesh.Base.{ℕ, ◌+◌, ◌-◌, ◌*◌, ◌/◌, leb, min}
use run_mesh.Base.Int.{pos}
use run_mesh.RateLimit.Bucket.{Numbers, Limit, Instant}

-- Whole numbers, which are never negative.
abbrev whole : Numbers
whole = record {
  Number = ℕ;
  of_ℕ = λ a. a;
  add = λ a b. a + b;
  sub = λ a b. a - b;
  mul = λ a b. a * b;
  div = λ a b. a / b;
  min = λ a b. min a b;
  max = λ a b. max a b;
  floor = λ a. pos a;
  ceil = λ a. pos a;
  le = λ a b. leb a b;
  stored = λ a. a;
}

-- Two at once, and one more each second.
abbrev two : Limit
two = record { rate = 1; burst = 2 }

abbrev at : ℕ → Instant
at s = record { seconds = s; micros = 0 }
