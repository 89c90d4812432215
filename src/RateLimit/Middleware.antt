-- ===== src/RateLimit/Middleware.antt =====
-- `Allow` and `Middleware` of internal/ratelimit/limiter.go. The metrics are left out.
use run_mesh.Base.{
  ℕ, ◌+◌, ◌/◌, Bool, false, Option, none, some, List, [], ◌∷◌, ltb, ◌==◌, if◌then◌else◌, Result, ok,
  err, other,
}
use run_mesh.Base.Int.{ℤ, pos, negsuc, to_ℕ}
use run_mesh.Workflow.Dag.{codes}
use run_mesh.Api.Response.{Response, failure}

-- A value of a reply of Redis: an int64, or something else.
pub data Reply : Type 0 where
  integer : ℤ → Reply
  something : Reply

pub record RateResult : Type 0 where
  pub allowed : Bool
  pub remaining : ℤ
  pub retry_after : ℤ  -- milliseconds

abbrev is_one : ℤ → Bool
is_one (pos n) = n == 1
is_one (negsuc n) = false

-- `Allow`, after the call of the script.
unfoldable pub allow : Result (List Reply) → Result RateResult
allow (err e) = err e
allow (ok (integer allowed ∷ integer remaining ∷ integer retry ∷ [])) =
    ok (record { allowed = is_one allowed; remaining = remaining; retry_after = retry })
allow (ok (integer allowed ∷ integer remaining ∷ something ∷ [])) =
    err (other "invalid Redis retry result")
allow (ok (integer allowed ∷ something ∷ _ ∷ [])) = err (other "invalid Redis remaining result")
allow (ok (something ∷ _ ∷ _ ∷ [])) = err (other "invalid Redis allow result")
allow (ok _) = err (other "unexpected Redis rate-limit result")

-- The headers RateLimit-Limit, RateLimit-Remaining and Retry-After.
pub record Headers : Type 0 where
  pub limit : Option ℕ
  pub remaining : Option ℤ
  pub retry_after : Option ℕ

-- Half a second rounds up, and no answer asks for less than a second.
abbrev pub retry_seconds : ℤ → ℕ
retry_seconds retry =
    let seconds = (to_ℕ retry + 500) / 1000 in if ltb seconds 1 then 1 else seconds

unfoldable pub middleware {ℓ} :
    {Body : Type ℓ} → ℕ → Bool → Result (List Reply) → Response Body → Headers × Response Body
unfolding allow
middleware burst fail_open replies next = elim (allow replies) [
  | err e ↦ (
    record { limit = none; remaining = none; retry_after = none },
    if fail_open then next else failure 503 (codes "rate limiter unavailable"),
  )
  | ok result ↦
      if result.allowed
      then (
        record { limit = some burst; remaining = some result.remaining; retry_after = none },
        next,
      )
      else (
        record {
          limit = some burst;
          remaining = some result.remaining;
          retry_after = some (retry_seconds result.retry_after);
        },
        failure 429 (codes "tenant rate limit exceeded"),
      )
]
