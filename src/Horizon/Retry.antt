-- ===== src/Horizon/Retry.antt =====
-- The retries of `get_page`: how many requests are sent, how long it waits, and what it returns.
use lumina_analytics.Prelude.{
  ℕ, zero, suc, ◌+◌, ◌*◌, ◌≤◌, ◌<◌, ◌≡◌, refl, ◌⊎◌, inl, inr, true, false, ◌&&◌, Option, some, List,
  [], ◌∷◌, arith, ltb, ◌==◌, Bool-cases,
}
use lumina_analytics.Horizon.{
  max_retries, initial_backoff, Reply, Retried, is_retryable, outcome_of, succeeded, get_page_loop,
  get_page,
}

-- As many waits as told, the first as given and each next one twice as long.
abbrev pub doubling : ℕ → ℕ → List ℕ
doubling zero backoff = []
doubling (suc m) backoff = backoff ∷ doubling m (backoff * 2)

abbrev pub sum : List ℕ → ℕ
sum [] = 0
sum (x ∷ xs) = x + sum xs

sum-doubling : (m : ℕ) → m ≤ 4 → sum (doubling m initial_backoff) ≤ 3750
sum-doubling zero h = omega arith
sum-doubling (suc zero) h = omega arith
sum-doubling (suc (suc zero)) h = omega arith
sum-doubling (suc (suc (suc zero))) h = omega arith
sum-doubling (suc (suc (suc (suc zero)))) h = omega arith
sum-doubling (suc (suc (suc (suc (suc m))))) h = absurd (omega arith)

module _ {T : Type 0} (send : ℕ → Reply T) where
  -- A reply after which the request is sent again, unless the retries are used up.
  abbrev pub CallsForRetry : ℕ → Type 0
  CallsForRetry n = (succeeded (send n) ≡ false) × (is_retryable (send n) ≡ true)

  -- The `n`-th request is the last one, `m` requests after `attempt` having called for a retry.
  pub record StopsAt (attempt m n backoff : ℕ) (r : Option (Retried T)) : Type 0 where
    pub position : n ≡ attempt + suc m
    pub returns : r ≡ some (record { result = outcome_of (send n); waits = doubling m backoff })
    pub retried : (k : ℕ) → attempt < k → k < n → CallsForRetry k
    pub at_most : n ≤ max_retries
    pub last : n < max_retries → ¬ CallsForRetry n

  stops_now :
      (fuel attempt backoff : ℕ)
      → attempt < max_retries
      → (succeeded (send (attempt + 1)) ≡ true)
        ⊎ ((succeeded (send (attempt + 1)) ≡ false)
            × ((is_retryable (send (attempt + 1)) && ltb (attempt + 1) max_retries) ≡ false))
      → StopsAt attempt 0 (attempt + 1) backoff (get_page_loop (suc fuel) send attempt backoff)
  unfolding get_page_loop
  stops_now fuel attempt backoff below stop = record {
    position = omega arith;
    returns = ground arith;
    retried = λ k p q. absurd (omega arith);
    at_most = omega arith;
    last = λ less calls. ground arith;
  }

  stops_later :
      (fuel attempt m n backoff : ℕ)
      → attempt < max_retries
      → succeeded (send (attempt + 1)) ≡ false
      → (is_retryable (send (attempt + 1)) && ltb (attempt + 1) max_retries) ≡ true
      → StopsAt
          (attempt + 1)
          m
          n
          (backoff * 2)
          (get_page_loop fuel send (attempt + 1) (backoff * 2))
      → StopsAt attempt (suc m) n backoff (get_page_loop (suc fuel) send attempt backoff)
  unfolding get_page_loop
  stops_later fuel attempt m n backoff below s t ih = record {
    position = omega (arith, ih.position);
    returns = rw (s, t, ih.returns) refl;
    retried = λ k p q. elim (Bool-cases (k == attempt + 1)) [
      | inl e ↦ let same : k ≡ attempt + 1 = ground arith in rw same (s, ground arith)
      | inr e ↦ ih.retried k (ground arith) q
    ];
    at_most = ih.at_most;
    last = ih.last;
  }

  get_page_loop-StopsAt :
      (fuel attempt backoff : ℕ)
      → attempt + suc fuel ≡ max_retries
      → (m n : ℕ) × StopsAt attempt m n backoff (get_page_loop (suc fuel) send attempt backoff)
  get_page_loop-StopsAt zero attempt backoff e = (
    0,
    attempt + 1,
    elim (Bool-cases (succeeded (send (attempt + 1)))) [
      | inl s ↦ stops_now 0 attempt backoff (omega arith) (inl s)
      | inr s ↦ stops_now 0 attempt backoff (omega arith) (inr (s, ground arith))
    ],
  )
  get_page_loop-StopsAt (suc fuel) attempt backoff e =
      elim (Bool-cases (succeeded (send (attempt + 1)))) [
        | inl s ↦ (0, attempt + 1, stops_now (suc fuel) attempt backoff (omega arith) (inl s))
        | inr s ↦
            elim (Bool-cases (is_retryable (send (attempt + 1)) && ltb (attempt + 1) max_retries)) [
              | inl t ↦
                  let (m, n, ih) =
                    get_page_loop-StopsAt fuel (attempt + 1) (backoff * 2) (omega arith) in
                  (suc m, n, stops_later (suc fuel) attempt m n backoff (omega arith) s t ih)
              | inr t ↦
                  (0, attempt + 1, stops_now (suc fuel) attempt backoff (omega arith) (inr (s, t)))
            ]
      ]

  -- Whatever the server answers, `get_page` returns: it sends at most five requests, every one but the
  -- last called for a retry, the last one did not unless it was the fifth, and what is returned is
  -- the outcome of the last. Between them it waits 250 ms, and each time twice as long as before,
  -- which is 3750 ms at most in all.
  pub get_page-StopsAt :
      (m n : ℕ) × StopsAt 0 m n initial_backoff (get_page send)
      × (sum (doubling m initial_backoff) ≤ 3750)
  unfolding get_page
  get_page-StopsAt =
      let (m, n, stops) = get_page_loop-StopsAt 4 0 initial_backoff refl in
      (m, n, stops, sum-doubling m (omega (arith, stops.position, stops.at_most)))
