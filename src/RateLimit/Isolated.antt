-- ===== src/RateLimit/Isolated.antt =====
-- The requests of other clients do not change what `enforce` of src/ratelimit.rs answers a client.
use lumina_analytics.Prelude.{
  ℕ, ◌-◌, ◌<◌, ◌≡◌, refl, sym, ap, ◌∙◌, inl, inr, Bool, true, false, Option, none, some, List, [],
  ◌∷◌, length, filter, ltb, if◌then◌else◌, Bool-cases, arith,
}
use mathlib.Core.Path.{subst}
use lumina_analytics.Prelude.Assoc.{Eq, lookup, insert, lookup-insert}
use lumina_analytics.RateLimit.{
  F64, Bucket, RateLimiter, or_full, refilled, hour, enabled, allow, sweep_if_large, enforce,
}

module _ {K : Type 0} ⦃e : Eq K⦄ (ip : K) where
  -- The requests of `ip`.
  abbrev pub own : List (ℕ × K) → List (ℕ × K)
  own requests = filter (λ (r : ℕ × K). e.beq r.1 ip) requests

  -- No request comes an hour or more after the last one of `ip` before it, which came at `last`.
  unfoldable pub Recent : Option ℕ → List (ℕ × K) → Type 0
  Recent last [] = Unit
  Recent none ((now, k) ∷ requests) = Recent (if e.beq k ip then some now else none) requests
  Recent (some last) ((now, k) ∷ requests) =
      (now - last < hour) × Recent (if e.beq k ip then some now else some last) requests

abbrev pub last_of : {F : Type 0} → Option (Bucket F) → Option ℕ
last_of none = none
last_of (some b) = some b.last_refill

module _ {F K : Type 0} ⦃f : F64 F⦄ ⦃e : Eq K⦄ (limiter : RateLimiter F) (ip : K) where
  -- The answers to the requests of `ip`, in a sequence of requests of any clients.
  unfoldable pub answers : List (ℕ × K) → List (K × Bucket F) → List Bool
  answers [] buckets = []
  answers ((now, k) ∷ requests) buckets =
      let rest = answers requests (enforce limiter now k buckets).1 in
      if e.beq k ip then (enforce limiter now k buckets).0 ∷ rest else rest

  -- A client by itself: its answer, and its bucket after.
  alone : ℕ → Option (Bucket F) → Bool × Bucket F
  alone now o =
      let tokens = refilled limiter now (or_full limiter now o) in
      if f.le (f.from_u32 1) tokens
      then (true, record { tokens = f.sub tokens (f.from_u32 1); last_refill = now })
      else (false, record { tokens = tokens; last_refill = now })

  alone-last : (now : ℕ) (o : Option (Bucket F)) → (alone now o).1.last_refill ≡ now
  unfolding alone
  alone-last now o =
      elim (Bool-cases (f.le (f.from_u32 1) (refilled limiter now (or_full limiter now o)))) [
        | inl t ↦ rw (t, alone) refl
        | inr t ↦ rw (t, alone) refl
      ]

  allow-alone :
      (now : ℕ) (k : K) (buckets : List (K × Bucket F))
      → allow limiter now k buckets
        ≡ ((alone now (lookup k buckets)).0, insert k (alone now (lookup k buckets)).1 buckets)
  unfolding allow alone
  allow-alone now k buckets =
      elim (Bool-cases
        (f.le (f.from_u32 1) (refilled limiter now (or_full limiter now (lookup k buckets))))) [
          | inl t ↦ rw (t, allow, alone) refl
          | inr t ↦ rw (t, allow, alone) refl
        ]

  -- A bucket that has been touched within the hour is not swept, and one that is not there stays away.
  abbrev Fresh : ℕ → Option (Bucket F) → Type 0
  Fresh now none = Unit
  Fresh now (some b) = now - b.last_refill < hour

  Recent-Fresh :
      (now : ℕ) (k : K) (requests : List (ℕ × K)) (o : Option (Bucket F))
      → Recent ip (last_of o) ((now, k) ∷ requests)
      → Fresh now o
  unfolding Recent
  Recent-Fresh now k requests none h = tt
  Recent-Fresh now k requests (some b) h = h.0

  Recent-rest :
      (now : ℕ) (k : K) (requests : List (ℕ × K)) (last : Option ℕ)
      → Recent ip last ((now, k) ∷ requests)
      → Recent ip (if e.beq k ip then some now else last) requests
  unfolding Recent
  Recent-rest now k requests none h = h
  Recent-rest now k requests (some last) h = h.1

  kept : ℕ → K × Bucket F → Bool
  kept now x = ltb (now - x.1.last_refill) hour

  filter-lookup :
      (now : ℕ) (buckets : List (K × Bucket F))
      → Fresh now (lookup ip buckets)
      → lookup ip (filter (kept now) buckets) ≡ lookup ip buckets
  unfolding lookup kept
  filter-lookup now [] h = refl
  filter-lookup now ((j, b) ∷ buckets) h = elim (Bool-cases (e.beq j ip)) [
    | inl here ↦
        let fresh : now - b.last_refill < hour = rw (here, lookup) at h in
        let stays : ltb (now - b.last_refill) hour ≡ true = ground arith in
        rw (stays, here, lookup) refl
    | inr there ↦
        let ih = filter-lookup now buckets (rw (there, lookup) at h) in
        elim (Bool-cases (ltb (now - b.last_refill) hour)) [
          | inl s ↦ rw (s, there, lookup) ih
          | inr s ↦ rw (s, there, lookup) ih
        ]
  ]

  sweep-lookup :
      (now : ℕ) (buckets : List (K × Bucket F))
      → Fresh now (lookup ip buckets)
      → lookup ip (sweep_if_large now buckets) ≡ lookup ip buckets
  unfolding sweep_if_large kept
  sweep-lookup now buckets h = elim (Bool-cases (ltb (length buckets) 10_000)) [
    | inl small ↦ rw (small, sweep_if_large) refl
    | inr large ↦ rw (large, sweep_if_large) (filter-lookup now buckets h)
  ]

  -- What the client gets by itself.
  solo : List (ℕ × K) → Option (Bucket F) → List Bool
  solo [] o = []
  solo ((now, k) ∷ requests) o =
      let rest = solo requests o in
      let rest' = solo requests (some (alone now o).1) in
      if e.beq k ip
      then (if enabled limiter then (alone now o).0 ∷ rest' else true ∷ rest)
      else rest

  solo-own :
      (requests : List (ℕ × K)) (o : Option (Bucket F)) → solo (own ip requests) o ≡ solo requests o
  unfolding solo
  solo-own [] o = refl
  solo-own ((now, k) ∷ requests) o = elim (Bool-cases (e.beq k ip)) [
    | inl t ↦
        rw (t, solo) (rw (t, solo-own requests o, solo-own requests (some (alone now o).1)) refl)
    | inr t ↦ rw (t, solo) (solo-own requests o)
  ]

  Recent-own :
      (last : Option ℕ) (requests : List (ℕ × K))
      → Recent ip last requests
      → Recent ip last (own ip requests)
  unfolding Recent
  Recent-own last [] h = tt
  Recent-own none ((now, k) ∷ requests) h = elim (Bool-cases (e.beq k ip)) [
    | inl t ↦ rw (t, Recent) (rw (t, Recent) (Recent-own (some now) requests (rw (t, Recent) at h)))
    | inr t ↦ rw (t, Recent) (Recent-own none requests (rw (t, Recent) at h))
  ]
  Recent-own (some last) ((now, k) ∷ requests) h = elim (Bool-cases (e.beq k ip)) [
    | inl t ↦
        rw (t, Recent)
          (h.0, rw (t, Recent) (Recent-own (some now) requests (rw (t, Recent) at h.1)))
    | inr t ↦ rw (t, Recent) (Recent-own (some last) requests (rw (t, Recent) at h.1))
  ]

  -- The answer to one request, and what is left of the client's bucket.
  enforce-own :
      (now : ℕ) (k : K) (buckets : List (K × Bucket F))
      → enabled limiter ≡ true
      → Fresh now (lookup ip buckets)
      → e.beq k ip ≡ true
      → ((enforce limiter now k buckets).0 ≡ (alone now (lookup ip buckets)).0)
        × (lookup ip (enforce limiter now k buckets).1 ≡ some (alone now (lookup ip buckets)).1)
  unfolding enforce
  enforce-own now k buckets on fresh t =
      let swept = sweep_if_large now buckets in
      let same : lookup k swept ≡ lookup ip buckets =
        ap (λ x. lookup x swept) ((e.beq_iff k ip).0 t) ∙ sweep-lookup now buckets fresh in
      rw (on, enforce, allow-alone now k swept, same)
        (refl, lookup-insert k ip (alone now (lookup ip buckets)).1 swept ∙ rw t refl)

  enforce-other :
      (now : ℕ) (k : K) (buckets : List (K × Bucket F))
      → enabled limiter ≡ true
      → Fresh now (lookup ip buckets)
      → e.beq k ip ≡ false
      → lookup ip (enforce limiter now k buckets).1 ≡ lookup ip buckets
  unfolding enforce
  enforce-other now k buckets on fresh t =
      let swept = sweep_if_large now buckets in
      rw (on, enforce, allow-alone now k swept)
        (lookup-insert k ip (alone now (lookup k swept)).1 swept
          ∙ (rw t refl ∙ sweep-lookup now buckets fresh))

  answers-off :
      (requests : List (ℕ × K)) (buckets : List (K × Bucket F)) (o : Option (Bucket F))
      → enabled limiter ≡ false
      → answers requests buckets ≡ solo requests o
  unfolding answers solo enforce
  answers-off [] buckets o off = refl
  answers-off ((now, k) ∷ requests) buckets o off = elim (Bool-cases (e.beq k ip)) [
    | inl t ↦
        rw (t, off, answers, solo, enforce)
          (ap (λ x. true ∷ x) (answers-off requests buckets o off))
    | inr t ↦ rw (t, off, answers, solo, enforce) (answers-off requests buckets o off)
  ]

  answers-on :
      (requests : List (ℕ × K)) (buckets : List (K × Bucket F))
      → enabled limiter ≡ true
      → Recent ip (last_of (lookup ip buckets)) requests
      → answers requests buckets ≡ solo requests (lookup ip buckets)
  unfolding answers solo alone
  answers-on [] buckets on h = refl
  answers-on ((now, k) ∷ requests) buckets on h =
      let o = lookup ip buckets in
      let after = (enforce limiter now k buckets).1 in
      let fresh = Recent-Fresh now k requests o h in
      let later = Recent-rest now k requests (last_of o) h in
      elim (Bool-cases (e.beq k ip)) [
        | inl t ↦
            let (answer, bucket) = enforce-own now k buckets on fresh t in
            rw (t, on, answer, answers, solo)
              (ap (λ rest. (alone now o).0 ∷ rest)
                (answers-on requests after on (
                    subst (λ x. Recent ip x requests)
                      (sym (ap last_of bucket ∙ ap some (alone-last now o))) (rw t at later))
                  ∙ ap (solo requests) bucket))
        | inr t ↦
            let bucket = enforce-other now k buckets on fresh t in
            rw (t, answers, solo)
              (answers-on requests after on
                  (subst (λ x. Recent ip (last_of x) requests) (sym bucket) (rw t at later))
                ∙ ap (solo requests) bucket)
      ]

  -- Whatever requests other clients make, however many buckets there are and however `f64` rounds: as
  -- long as no request comes an hour or more after the client's last one, or after its bucket was last
  -- filled, `enforce` answers each request of the client as it would if no one else had made any.
  -- Sweeping a large table of buckets does not change that.
  pub answers-own :
      (requests : List (ℕ × K)) (buckets : List (K × Bucket F))
      → Recent ip (last_of (lookup ip buckets)) requests
      → answers requests buckets ≡ answers (own ip requests) buckets
  answers-own requests buckets h = elim (Bool-cases (enabled limiter)) [
    | inl on ↦
        answers-on requests buckets on h
        ∙ (sym (solo-own requests (lookup ip buckets))
            ∙ sym (
                answers-on (own ip requests) buckets on
                  (Recent-own (last_of (lookup ip buckets)) requests h)))
    | inr off ↦
        answers-off requests buckets none off
        ∙ (sym (solo-own requests none) ∙ sym (answers-off (own ip requests) buckets none off))
  ]
