-- ===== src/Auth/Limits.antt =====
-- `Bucket`, `RateLimiter` and `WriteRateLimiter` of src/auth.rs. A call happens at a time of the
-- monotonic clock, in nanoseconds, and under the mutex of its limiter.
pub mod Burst
use engram_mcp.Common.{
  ℕ, ◌-◌, Bool, true, false, Option, none, some, if◌then◌else◌, Result, ok, err, Text, text_eq,
  text_eq_iff, ◌&&◌, ◌≡◌, ◌↔◌, arith,
}
use engram_mcp.HashMap.{HashMap, Eq, get, insert, empty}
use engram_mcp.Auth.Keys.{CredentialId, key_a, key_b, o_auth, AuthSubject}

-- The operations of `f64` that are used.
pub record Floats : Type 1 where
  pub F : Type 0
  pub of_u32 : ℕ → F
  pub as_secs : (nanoseconds : ℕ) → F
  pub add : F → F → F
  pub sub : F → F → F
  pub mul : F → F → F
  pub div : F → F → F
  pub min : F → F → F
  pub lt : F → F → Bool

unfoldable pub credential_eq : CredentialId → CredentialId → Bool
credential_eq key_a key_a = true
credential_eq key_b key_b = true
credential_eq (o_auth s) (o_auth t) = text_eq s t
credential_eq _ _ = false

pub credential_eq_iff : (a b : CredentialId) → (credential_eq a b ≡ true) ↔ (a ≡ b)
unfolding credential_eq
credential_eq_iff key_a key_a = ground arith
credential_eq_iff key_a key_b = ground arith
credential_eq_iff key_a (o_auth t) = ground arith
credential_eq_iff key_b key_a = ground arith
credential_eq_iff key_b key_b = ground arith
credential_eq_iff key_b (o_auth t) = ground arith
credential_eq_iff (o_auth s) key_a = ground arith
credential_eq_iff (o_auth s) key_b = ground arith
credential_eq_iff (o_auth s) (o_auth t) = ground (arith, text_eq_iff s t)

instance abbrev pub credential_key : Eq CredentialId
credential_key = record { beq = credential_eq; beq_iff = credential_eq_iff }

module _ (floats : Floats) where
  open floats use {F, of_u32, as_secs, add, sub, mul, div, min, lt}

  pub record Bucket : Type 0 where
    pub tokens : F
    pub updated_at : ℕ

  unfoldable pub full : (capacity : F) (now : ℕ) → Bucket
  full capacity now = record { tokens = capacity; updated_at = now }

  -- `duration_since` of an earlier instant is zero.
  unfoldable pub refilled : Bucket → (capacity refill_per_second : F) (now : ℕ) → F
  refilled bucket capacity refill_per_second now =
      let elapsed = as_secs (now - bucket.updated_at) in
      min (add bucket.tokens (mul elapsed refill_per_second)) capacity

  unfoldable pub take : (capacity refill_per_second : F) (now : ℕ) → Bucket → Bool × Bucket
  take capacity refill_per_second now bucket =
      let tokens = refilled bucket capacity refill_per_second now in
      if lt tokens (of_u32 1)
      then (false, record { tokens = tokens; updated_at = now })
      else (true, record { tokens = sub tokens (of_u32 1); updated_at = now })

  pub record RateLimiter : Type 0 where
    pub capacity : F
    pub refill_per_second : F
    pub buckets : HashMap CredentialId Bucket

  unfoldable pub new_limiter : (requests_per_minute burst : ℕ) → RateLimiter
  new_limiter requests_per_minute burst = record {
    capacity = of_u32 burst;
    refill_per_second = div (of_u32 requests_per_minute) (of_u32 60);
    buckets = empty;
  }

  -- `entry(..).or_insert_with(..)`.
  unfoldable pub bucket_or_full : RateLimiter → (now : ℕ) → CredentialId → Bucket
  bucket_or_full limiter now id = elim (get limiter.buckets id) [
    | none ↦ full limiter.capacity now
    | some bucket ↦ bucket
  ]

  -- The answer is whether the request is let through.
  unfoldable pub check : (now : ℕ) → AuthSubject → RateLimiter → Bool × RateLimiter
  check now subject limiter =
      let (allowed, bucket) =
        take limiter.capacity limiter.refill_per_second now
          (bucket_or_full limiter now subject.credential_id) in
      (allowed, record limiter { buckets = insert limiter.buckets subject.credential_id bucket })

  pub record WriteRateLimiter : Type 0 where
    pub capacity : F
    pub refill_per_second : F
    pub bucket : Bucket

  unfoldable pub new_write_limiter : (writes_per_hour now : ℕ) → WriteRateLimiter
  new_write_limiter writes_per_hour now =
      let capacity = of_u32 writes_per_hour in
      record {
        capacity = capacity;
        refill_per_second = div capacity (of_u32 3_600);
        bucket = full capacity now;
      }

  unfoldable pub check_write : (now : ℕ) → WriteRateLimiter → Bool × WriteRateLimiter
  check_write now limiter =
      let (allowed, bucket) = take limiter.capacity limiter.refill_per_second now limiter.bucket in
      (allowed, record limiter { bucket = bucket })
