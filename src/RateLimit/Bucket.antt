-- ===== src/RateLimit/Bucket.antt =====
-- `tokenBucketScript` of internal/ratelimit/limiter.go, over the numbers of Redis's Lua.
use run_mesh.Base.{ℕ, ◌+◌, ◌*◌, ◌/◌, Bool, Option, none, some, leb, if◌then◌else◌}
use run_mesh.Base.Int.{ℤ, pos, to_ℕ}

-- The numbers of Lua, which are doubles. `stored` is what HMGET and `tonumber` read of a number that
-- HSET has written as text.
pub record Numbers : Type 1 where
  pub Number : Type 0
  pub of_ℕ : ℕ → Number
  pub add : Number → Number → Number
  pub sub : Number → Number → Number
  pub mul : Number → Number → Number
  pub div : Number → Number → Number
  pub min : Number → Number → Number
  pub max : Number → Number → Number
  pub floor : Number → ℤ
  pub ceil : Number → ℤ
  pub le : Number → Number → Bool
  pub stored : Number → Number

pub record Limit : Type 0 where
  pub rate : ℕ
  pub burst : ℕ

-- What TIME returns.
pub record Instant : Type 0 where
  pub seconds : ℕ
  pub micros : ℕ

-- The server's clock in milliseconds.
abbrev pub millis : Instant → ℕ
millis t = t.seconds * 1000 + t.micros / 1000

pub record Decision : Type 0 where
  pub allowed : Bool
  pub remaining : ℤ
  pub retry_ms : ℤ

module _ (n : Numbers) where
  -- The hash under the tenant's key, and when the key expires.
  pub record Bucket : Type 0 where
    pub tokens : n.Number
    pub updated : n.Number
    pub expires_at : ℕ

  -- `tonumber(current[1]) + tonumber(current[2]) / 1000000`
  unfoldable pub number_of : Instant → n.Number
  number_of t = n.add (n.of_ℕ t.seconds) (n.div (n.of_ℕ t.micros) (n.of_ℕ 1000000))

  -- HMGET: a key that has expired is none.
  unfoldable pub read_bucket : Instant → Option Bucket → Option Bucket
  read_bucket t none = none
  read_bucket t (some b) = if leb b.expires_at (millis t) then none else some b

  -- `tokens + math.max(0, now - updated) * rate`, at most the burst.
  unfoldable pub refill_from : Limit → n.Number → n.Number → n.Number → n.Number
  refill_from l now tokens updated =
      n.min (n.of_ℕ l.burst)
        (n.add tokens (n.mul (n.max (n.of_ℕ 0) (n.sub now updated)) (n.of_ℕ l.rate)))

  -- A new bucket is full.
  unfoldable pub refill : Limit → n.Number → Option Bucket → n.Number
  unfolding refill_from
  refill l now none = refill_from l now (n.of_ℕ l.burst) now
  refill l now (some b) = refill_from l now b.tokens b.updated

  -- The tokens after the request.
  unfoldable pub spend : n.Number → n.Number
  spend tokens = if n.le (n.of_ℕ 1) tokens then n.sub tokens (n.of_ℕ 1) else tokens

  unfoldable pub decide : Limit → n.Number → Decision
  unfolding spend
  decide l tokens = record {
    allowed = n.le (n.of_ℕ 1) tokens;
    remaining = n.floor (spend tokens);
    retry_ms =
        if n.le (n.of_ℕ 1) tokens
        then pos 0
        else n.ceil (n.mul (n.div (n.sub (n.of_ℕ 1) tokens) (n.of_ℕ l.rate)) (n.of_ℕ 1000));
  }

  -- The milliseconds of PEXPIRE.
  unfoldable pub lifetime : Limit → ℕ
  lifetime l = to_ℕ (n.ceil (n.mul (n.div (n.of_ℕ l.burst) (n.of_ℕ l.rate)) (n.of_ℕ 2000)))

  unfoldable pub run_script : Limit → Instant → Option Bucket → Decision × Bucket
  unfolding number_of read_bucket refill spend decide lifetime
  run_script l t found =
      let now = number_of t in
      let tokens = refill l now (read_bucket t found) in
      (
        decide l tokens,
        record {
          tokens = n.stored (spend tokens);
          updated = n.stored now;
          expires_at = millis t + lifetime l;
        },
      )
