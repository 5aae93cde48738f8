-- ===== src/Db/Transaction.antt =====
-- What a handler does with the connection of one transaction: `Tx D A` ends with an outcome, and
-- leaves the tables as the transaction sees them, with whether the transaction has failed.
use lumina_analytics.Prelude.{
  ℕ, String, ◌≡◌, refl, ap, Bool, true, false, not, ◌&&◌, Option, none, some, ◌⊎◌, inl, inr, arith,
  if◌then◌else◌,
}
use lumina_analytics.Prelude.Outcome.{Outcome, ok, err, panic, parsed}
use lumina_analytics.Pricing.Hops.{PriceRow}
use lumina_analytics.Db.{Store, PoolRow, PoolSnapshot, TokenSnapshot, WhaleTransaction}

-- The statements that ingestion executes.
pub data Statement (D : Type 0) : Type 0 where
  select_pool_shares select_cursor : String → Statement D
  select_token_accounts upsert_token_row : String → String → Statement D
  upsert_pool_row : PoolRow → Statement D
  insert_snapshot : PoolSnapshot D → Statement D
  insert_token_row : TokenSnapshot D → Statement D
  insert_whale : WhaleTransaction D → Statement D
  insert_price : ℕ → PriceRow D → Statement D
  upsert_cursor : String → String → Statement D

pub record Session (D : Type 0) : Type 0 where
  pub store : Store D
  pub failed : Bool

abbrev pub Tx : Type 0 → Type 0 → Type 0
Tx D A = Session D → Outcome A × Session D

module _ {D : Type 0} where
  infixl 5 ◌>>=◌ ◌>>◌
  abbrev pub and_then :
      {A B : Type 0} → Outcome A × Session D → (A → Tx D B) → Outcome B × Session D
  and_then (ok a, s) f = f a s
  and_then (err, s) f = (err, s)
  and_then (panic, s) f = (panic, s)

  abbrev pub ◌>>=◌ : {A B : Type 0} → Tx D A → (A → Tx D B) → Tx D B
  (m >>= f) s = and_then (m s) f

  abbrev pub ◌>>◌ : {B : Type 0} → Tx D (Unit {0}) → Tx D B → Tx D B
  m >> k = m >>= λ u. k

  abbrev pub return : {A : Type 0} → A → Tx D A
  return a s = (ok a, s)

  -- What needs no statement.
  abbrev pub lift : {A : Type 0} → Outcome A → Tx D A
  lift o s = (o, s)

  -- A statement with its result and its effect.
  unfoldable pub execute :
      {A : Type 0} → (Statement D → Bool) → Statement D → (Store D → A × Store D) → Tx D A
  execute accepts statement run s =
      let (a, after) = run s.store in
      if not s.failed && accepts statement
      then (ok a, record s { store = after })
      else (err, record s { failed = true })

  abbrev pub query : {A : Type 0} → (Statement D → Bool) → Statement D → (Store D → A) → Tx D A
  query accepts statement read = execute accepts statement (λ store. (read store, store))

  abbrev pub update : (Statement D → Bool) → Statement D → (Store D → Store D) → Tx D (Unit {0})
  update accepts statement change = execute accepts statement (λ store. (tt, change store))

  -- A body that returned came through its first step.
  pub and_then-eq-ok :
      {A B : Type 0} (r : Outcome A × Session D) (f : A → Tx D B) {b : B} {s' : Session D}
      → and_then r f ≡ (ok b, s')
      → (a : A) × (mid : Session D) × (r ≡ (ok a, mid)) × (f a mid ≡ (ok b, s'))
  and_then-eq-ok (ok a, mid) f h = (a, mid, refl, h)
  and_then-eq-ok (err, mid) f h = cc
  and_then-eq-ok (panic, mid) f h = cc

  -- An error of a body is its first step's, or its rest's.
  pub and_then-eq-err :
      {A B : Type 0} (r : Outcome A × Session D) (f : A → Tx D B) {s' : Session D}
      → and_then r f ≡ (err, s')
      → (r ≡ (err, s')) ⊎ ((a : A) × (mid : Session D) × (r ≡ (ok a, mid)) × (f a mid ≡ (err, s')))
  and_then-eq-err (ok a, mid) f h = inr (a, mid, refl, h)
  and_then-eq-err (err, mid) f h = inl (ap (λ r. (err, r.1)) h)
  and_then-eq-err (panic, mid) f h = cc

  pub lift-eq-ok :
      {A : Type 0} (o : Outcome A) (s : Session D) {a : A} {s' : Session D}
      → lift o s ≡ (ok a, s')
      → (o ≡ ok a) × (s ≡ s')
  lift-eq-ok o s h = (ap (λ r. r.0) h, ap (λ r. r.1) h)

  -- A statement that returned was accepted, in a transaction that has not failed.
  pub execute-eq-ok :
      {A : Type 0} (accepts : Statement D → Bool) (statement : Statement D)
      (run : Store D → A × Store D) (s : Session D) {a : A} {s' : Session D}
      → execute accepts statement run s ≡ (ok a, s')
      → (run s.store ≡ (a, s'.store)) × (s'.failed ≡ false) × (accepts statement ≡ true)
  unfolding execute
  execute-eq-ok accepts statement run s h = ground arith

  pub execute-eq-err :
      {A : Type 0} (accepts : Statement D → Bool) (statement : Statement D)
      (run : Store D → A × Store D) (s : Session D) {s' : Session D}
      → execute accepts statement run s ≡ (err, s')
      → s'.failed ≡ true
  unfolding execute
  execute-eq-err accepts statement run s h = ground arith

  pub parsed-eq-ok :
      {A B : Type 0} (o : Option A) (s : Session D) (f : A → Tx D B) {b : B} {s' : Session D}
      → and_then (lift (parsed o) s) f ≡ (ok b, s')
      → (a : A) × (o ≡ some a) × (f a s ≡ (ok b, s'))
  parsed-eq-ok none s f h = cc
  parsed-eq-ok (some a) s f h = (a, refl, h)
