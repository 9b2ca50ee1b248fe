-- ===== src/Auth/Limits/Burst.antt =====
-- The bursts that the limiters of src/auth.rs let through.
use engram_mcp.Common.{
  ℕ, zero, suc, ◌-◌, ◌^◌, ◌≤◌, ◌<◌, ◌≡◌, refl, ap, ◌∙◌, inl, inr, Bool, true, false, List, [], ◌∷◌,
  ◌&&◌, if◌then◌else◌, min, arith, Bool-cases,
}
use engram_mcp.HashMap.{insert, get-insert, get-empty}
use engram_mcp.Auth.Keys.{CredentialId, AuthSubject}
use engram_mcp.Auth.Limits.{
  Floats, credential_key, credential_eq, credential_eq_iff, Bucket, full, refilled, take,
  RateLimiter, new_limiter, bucket_or_full, check, WriteRateLimiter, new_write_limiter, check_write,
}

-- What IEEE 754 says of the `f64` of integers of 32 bits, which are exact: no time adds nothing, and
-- the minimum, the difference to one and the order are those of the integers.
pub record IsExact (floats : Floats) : Type 0 where
  pub stands :
      (n rate period : ℕ)
      → n < 2 ^ 32
      → rate < 2 ^ 32
      → floats.add (floats.of_u32 n) (
          floats.mul
            (floats.as_secs 0)
            (floats.div (floats.of_u32 rate) (floats.of_u32 (suc period))))
        ≡ floats.of_u32 n
  pub min_of :
      (m n : ℕ)
      → m ≤ n
      → n < 2 ^ 32
      → floats.min (floats.of_u32 m) (floats.of_u32 n) ≡ floats.of_u32 m
  pub sub_one :
      (n : ℕ)
      → suc n < 2 ^ 32
      → floats.sub (floats.of_u32 (suc n)) (floats.of_u32 1) ≡ floats.of_u32 n
  pub zero_lt : floats.lt (floats.of_u32 0) (floats.of_u32 1) ≡ true
  pub suc_lt :
      (n : ℕ) → suc n < 2 ^ 32 → floats.lt (floats.of_u32 (suc n)) (floats.of_u32 1) ≡ false

-- The requests that one credential makes.
unfoldable pub requests_of : CredentialId → List AuthSubject → ℕ
requests_of id [] = 0
requests_of id (subject ∷ subjects) =
    let rest = requests_of id subjects in
    if credential_eq subject.credential_id id then suc rest else rest

module _ (floats : Floats) where
  -- Those of them that are let through when all are made at one time.
  unfoldable pub allowed_of : CredentialId → (now : ℕ) → List AuthSubject → RateLimiter floats → ℕ
  allowed_of id now [] limiter = 0
  allowed_of id now (subject ∷ subjects) limiter =
      let answer = check floats now subject limiter in
      let rest = allowed_of id now subjects answer.1 in
      if credential_eq subject.credential_id id && answer.0 then suc rest else rest

  -- How many of so many writes at one time are let through.
  unfoldable pub allowed_writes : (writes now : ℕ) → WriteRateLimiter floats → ℕ
  allowed_writes zero now limiter = 0
  allowed_writes (suc writes) now limiter =
      let answer = check_write floats now limiter in
      let rest = allowed_writes writes now answer.1 in if answer.0 then suc rest else rest

module _ (floats : Floats) (exact : IsExact floats) where
  open floats use {of_u32, div}

  -- A bucket with so many tokens at a time.
  abbrev holding : (n now : ℕ) → Bucket floats
  holding n now = record { tokens = of_u32 n; updated_at = now }

  refilled-holding :
      (n burst rate period now : ℕ)
      → n ≤ burst
      → burst < 2 ^ 32
      → rate < 2 ^ 32
      → refilled floats (holding n now) (of_u32 burst) (div (of_u32 rate) (of_u32 (suc period))) now
        ≡ of_u32 n
  unfolding refilled
  refilled-holding n burst rate period now h b r =
      let z : now - now ≡ 0 = omega arith in
      rw (z, refilled, exact.stands n rate period (omega (arith, h, b)) r)
        (exact.min_of n burst h b)

  take-holding-zero :
      (burst rate period now : ℕ)
      → burst < 2 ^ 32
      → rate < 2 ^ 32
      → take floats (of_u32 burst) (div (of_u32 rate) (of_u32 (suc period))) now (holding 0 now)
        ≡ (false, holding 0 now)
  unfolding take
  take-holding-zero burst rate period now b r =
      rw (refilled-holding 0 burst rate period now (omega arith) b r, exact.zero_lt) refl

  take-holding-suc :
      (n burst rate period now : ℕ)
      → n < burst
      → burst < 2 ^ 32
      → rate < 2 ^ 32
      → take floats
          (of_u32 burst)
          (div (of_u32 rate) (of_u32 (suc period)))
          now
          (holding (suc n) now)
        ≡ (true, holding n now)
  unfolding take
  take-holding-suc n burst rate period now h b r =
      rw
        (
          refilled-holding (suc n) burst rate period now h b r,
          exact.suc_lt n (omega (arith, h, b)),
          exact.sub_one n (omega (arith, h, b)),
        )
        refl

  module _ (burst rate period : ℕ) (b : burst < 2 ^ 32) (r : rate < 2 ^ 32) where
    -- The bucket of a credential holds so many tokens.
    record Holds (id : CredentialId) (n now : ℕ) (limiter : RateLimiter floats) : Type 0 where
      capacity : limiter.capacity ≡ of_u32 burst
      refill : limiter.refill_per_second ≡ div (of_u32 rate) (of_u32 (suc period))
      bucket : bucket_or_full floats limiter now id ≡ holding n now
      within : n ≤ burst

    stored :
        (id j : CredentialId) (now : ℕ) (limiter : RateLimiter floats) (bucket : Bucket floats)
        → bucket_or_full floats
            (record limiter { buckets = insert limiter.buckets j bucket })
            now
            id
          ≡ (if credential_eq j id then bucket else bucket_or_full floats limiter now id)
    unfolding bucket_or_full
    stored id j now limiter bucket = elim (Bool-cases (credential_eq j id)) [
      | inl e ↦ rw (get-insert limiter.buckets j id bucket, e, bucket_or_full) refl
      | inr e ↦ rw (get-insert limiter.buckets j id bucket, e, bucket_or_full) refl
    ]

    check-other :
        (id : CredentialId) (n now : ℕ) (subject : AuthSubject) (limiter : RateLimiter floats)
        → credential_eq subject.credential_id id ≡ false
        → Holds id n now limiter
        → Holds id n now (check floats now subject limiter).1
    unfolding check
    check-other id n now subject limiter other h = record {
      capacity = h.capacity;
      refill = h.refill;
      bucket = stored id subject.credential_id now limiter _ ∙ rw other h.bucket;
      within = h.within;
    }

    -- What a check leaves when the bucket of the credential is taken from.
    check-own :
        (id : CredentialId) (n m now : ℕ) (allowed : Bool) (subject : AuthSubject)
        (limiter : RateLimiter floats)
        → subject.credential_id ≡ id
        → Holds id n now limiter
        → take floats (of_u32 burst) (div (of_u32 rate) (of_u32 (suc period))) now (holding n now)
          ≡ (allowed, holding m now)
        → m ≤ burst
        → ((check floats now subject limiter).0 ≡ allowed)
          × Holds id m now (check floats now subject limiter).1
    unfolding check
    check-own id n m now allowed subject limiter own h t w =
        let e : take floats limiter.capacity limiter.refill_per_second now
              (bucket_or_full floats limiter now subject.credential_id)
            ≡ (allowed, holding m now) =
          rw (own, h.bucket, h.capacity, h.refill) t in
        (
          ap (λ p. p.0) e,
          record {
            capacity = h.capacity;
            refill = h.refill;
            bucket =
                stored id subject.credential_id now limiter _
                ∙ rw ((credential_eq_iff subject.credential_id id).1 own) (ap (λ p. p.1) e);
            within = w;
          },
        )

    allowed_of-Holds :
        (id : CredentialId) (n now : ℕ) (subjects : List AuthSubject) (limiter : RateLimiter floats)
        → Holds id n now limiter
        → allowed_of floats id now subjects limiter ≡ min (requests_of id subjects) n
    unfolding allowed_of requests_of
    allowed_of-Holds id n now [] limiter h = omega arith
    allowed_of-Holds id zero now (subject ∷ subjects) limiter h =
        elim (Bool-cases (credential_eq subject.credential_id id)) [
          | inr e ↦
              rw (e, allowed_of, requests_of)
                (allowed_of-Holds id zero now subjects (check floats now subject limiter).1
                  (check-other id zero now subject limiter e h))
          | inl e ↦
              let (a, k) =
                check-own id zero zero now false subject limiter
                  ((credential_eq_iff subject.credential_id id).0 e) h
                  (take-holding-zero burst rate period now b r) (omega arith) in
              rw (e, a, allowed_of, requests_of)
                (omega (
                  arith,
                  allowed_of-Holds id zero now subjects (check floats now subject limiter).1 k,
                ))
        ]
    allowed_of-Holds id (suc n) now (subject ∷ subjects) limiter h =
        elim (Bool-cases (credential_eq subject.credential_id id)) [
          | inr e ↦
              rw (e, allowed_of, requests_of)
                (allowed_of-Holds id (suc n) now subjects (check floats now subject limiter).1
                  (check-other id (suc n) now subject limiter e h))
          | inl e ↦
              let (a, k) =
                check-own id (suc n) n now true subject limiter
                  ((credential_eq_iff subject.credential_id id).0 e) h
                  (take-holding-suc n burst rate period now h.within b r)
                  (omega (arith, h.within)) in
              rw (e, a, allowed_of, requests_of)
                (omega (
                  arith,
                  allowed_of-Holds id n now subjects (check floats now subject limiter).1 k,
                ))
        ]

  new-Holds :
      (id : CredentialId) (per_minute burst now : ℕ) (b : burst < 2 ^ 32) (r : per_minute < 2 ^ 32)
      → Holds burst per_minute 59 b r id burst now (new_limiter floats per_minute burst)
  unfolding new_limiter bucket_or_full full
  new-Holds id per_minute burst now b r = record {
    capacity = refl;
    refill = refl;
    bucket = rw (get-empty {V = Bucket floats} id, bucket_or_full) refl;
    within = omega arith;
  }

  -- Of the requests that reach a new limiter at one time, however those of several credentials
  -- are interleaved, exactly as many of each credential are let through as it makes, up to the
  -- burst, if the burst and the rate are numbers of 32 bits and the arithmetic of f64 is exact on
  -- such integers.
  pub allowed_of-new_limiter :
      (id : CredentialId) (per_minute burst now : ℕ) (subjects : List AuthSubject)
      → burst < 2 ^ 32
      → per_minute < 2 ^ 32
      → allowed_of floats id now subjects (new_limiter floats per_minute burst)
        ≡ min (requests_of id subjects) burst
  allowed_of-new_limiter id per_minute burst now subjects b r =
      allowed_of-Holds burst per_minute 59 b r id burst now subjects
        (new_limiter floats per_minute burst) (new-Holds id per_minute burst now b r)

  allowed_writes-holding :
      (writes n burst now : ℕ)
      → n ≤ burst
      → burst < 2 ^ 32
      → allowed_writes floats writes now (record {
        capacity = of_u32 burst;
        refill_per_second = div (of_u32 burst) (of_u32 3_600);
        bucket = holding n now;
      })
        ≡ min writes n
  unfolding allowed_writes check_write
  allowed_writes-holding zero n burst now h b = omega arith
  allowed_writes-holding (suc writes) zero burst now h b =
      rw (take-holding-zero burst burst 3_599 now b b, allowed_writes, check_write)
        (omega (arith, allowed_writes-holding writes zero burst now h b))
  allowed_writes-holding (suc writes) (suc n) burst now h b =
      rw (take-holding-suc n burst burst 3_599 now h b b, allowed_writes, check_write)
        (omega (arith, allowed_writes-holding writes n burst now (omega (arith, h)) b))

  pub allowed_writes-new_write_limiter :
      (writes per_hour now : ℕ)
      → per_hour < 2 ^ 32
      → allowed_writes floats writes now (new_write_limiter floats per_hour now)
        ≡ min writes per_hour
  unfolding new_write_limiter full
  allowed_writes-new_write_limiter writes per_hour now b =
      allowed_writes-holding writes per_hour per_hour now (omega arith) b
