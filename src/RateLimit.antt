-- ===== src/RateLimit.antt =====
-- src/ratelimit.rs: a token bucket for each client. `f64` is a parameter with the operations that the
-- code uses, so that no theorem depends on how it rounds. A time is a number of nanoseconds.
pub mod Isolated
use lumina_analytics.Prelude.{
  ℕ, ◌-◌, ◌*◌, Bool, true, false, not, Option, none, some, List, ◌∷◌, length, filter, ltb, leb,
  if◌then◌else◌,
}
use lumina_analytics.Prelude.Assoc.{Eq, lookup, insert}

-- `f64`: conversion of a `u32`, `Duration::as_secs_f64`, arithmetic, `f64::min` and comparisons.
pub record F64 (F : Type 0) : Type 0 where
  pub from_u32 : ℕ → F
  pub as_secs_f64 : ℕ → F
  pub add : F → F → F
  pub sub : F → F → F
  pub mul : F → F → F
  pub min : F → F → F
  pub lt : F → F → Bool
  pub le : F → F → Bool

abbrev pub max : ℕ → ℕ → ℕ
max a b = if leb a b then b else a

pub record Bucket (F : Type 0) : Type 0 where
  pub tokens : F
  pub last_refill : ℕ

pub record RateLimiter (F : Type 0) : Type 0 where
  pub rps : F
  pub burst : F

module _ {F : Type 0} ⦃f : F64 F⦄ where
  unfoldable pub new : ℕ → ℕ → RateLimiter F
  new rps burst = record { rps = f.from_u32 rps; burst = f.from_u32 (max burst 1) }

  unfoldable pub enabled : RateLimiter F → Bool
  enabled limiter = f.lt (f.from_u32 0) limiter.rps

  -- `entry(ip).or_insert_with(..)`
  abbrev pub or_full : RateLimiter F → ℕ → Option (Bucket F) → Bucket F
  or_full limiter now none = record { tokens = limiter.burst; last_refill = now }
  or_full limiter now (some b) = b

  abbrev pub refilled : RateLimiter F → ℕ → Bucket F → F
  refilled limiter now b =
      f.min (f.add b.tokens (f.mul (f.as_secs_f64 (now - b.last_refill)) limiter.rps)) limiter.burst

-- An hour, in nanoseconds.
abbrev pub hour : ℕ
hour = 3600 * 1_000_000_000

module _ {F K : Type 0} ⦃f : F64 F⦄ ⦃e : Eq K⦄ where
  unfoldable pub allow : RateLimiter F → ℕ → K → List (K × Bucket F) → Bool × List (K × Bucket F)
  allow limiter now ip buckets =
      let tokens = refilled limiter now (or_full limiter now (lookup ip buckets)) in
      if f.le (f.from_u32 1) tokens
      then (
        true,
        insert ip (record { tokens = f.sub tokens (f.from_u32 1); last_refill = now }) buckets,
      )
      else (false, insert ip (record { tokens = tokens; last_refill = now }) buckets)

  unfoldable pub sweep_if_large : ℕ → List (K × Bucket F) → List (K × Bucket F)
  sweep_if_large now buckets =
      if ltb (length buckets) 10_000
      then buckets
      else filter (λ (x : K × Bucket F). ltb (now - x.1.last_refill) hour) buckets

  -- Whether the request goes on to its handler, and the buckets after.
  unfoldable pub enforce : RateLimiter F → ℕ → K → List (K × Bucket F) → Bool × List (K × Bucket F)
  unfolding allow sweep_if_large enabled
  enforce limiter now ip buckets =
      if not (enabled limiter)
      then (true, buckets)
      else allow limiter now ip (sweep_if_large now buckets)
