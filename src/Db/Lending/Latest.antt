-- ===== src/Db/Lending/Latest.antt =====
-- The rows that `DISTINCT ON` chooses in src/db/lending.rs.
use lumina_analytics.Prelude.{
  ◌≤◌, ◌≡◌, refl, sym, ◌∙◌, inl, inr, true, false, not, Option, some, List, [], ◌∷◌, filter, Holds,
  All, All-at, All-of_at, Pairwise, Pairwise-filter, arith, Bool-cases, Option-cases, eq_iff,
  eq_refl, leb→le,
}
use mathlib.Core.Path.{subst}
use lumina_analytics.Prelude.Sort.{Holds-filter, filter-Holds}
use lumina_analytics.Soroban.Position.{LendingPosition}
use lumina_analytics.Db.Pools.{first_by, newest_first}
use lumina_analytics.Db.Pools.Groups.{
  first_by-eq_some, first_by-no_none, newest_first-order, filter_map-Holds, Holds-filter_map,
  Pairwise-filter_map,
}
use lumina_analytics.Db.Lending.{same_account, position_time, representatives, latest_positions}

module _ {D : Type 0} where
  abbrev pub SameAccount : LendingPosition D → LendingPosition D → Type 0
  SameAccount p q = (p.pool_contract ≡ q.pool_contract) × (p.account ≡ q.account)

  -- A row that is the newest one of its account.
  abbrev pub IsLatest : List (LendingPosition D) → LendingPosition D → Type 0
  IsLatest rows p =
      Holds p rows × All (λ (r : LendingPosition D). SameAccount p r → r.time ≤ p.time) rows

  abbrev pub OtherAccount : LendingPosition D → LendingPosition D → Type 0
  OtherAccount p q = SameAccount p q → ⊥

  abbrev pub IsShown : List (LendingPosition D) → LendingPosition D → Type 0
  IsShown shown r = (p : LendingPosition D) × Holds p shown × SameAccount p r

  same_account_refl : (a : LendingPosition D) → same_account a a ≡ true
  same_account_refl a = ground (arith, eq_refl a.pool_contract, eq_refl a.account)

  same_account-eq : (a b : LendingPosition D) → same_account a b ≡ true → SameAccount a b
  same_account-eq a b h = (
    ground (arith, eq_iff a.pool_contract b.pool_contract),
    ground (arith, eq_iff a.account b.account),
  )

  eq-same_account : (a b : LendingPosition D) → SameAccount a b → same_account a b ≡ true
  eq-same_account a b (pools, accounts) =
      ground (arith, eq_iff a.pool_contract b.pool_contract, eq_iff a.account b.account)

  other_account : (a b : LendingPosition D) → same_account a b ≡ false → OtherAccount a b
  other_account a b h same = let e = eq-same_account a b same in cc

  -- Whom an account is the same as depends on the account only.
  same_account_congr :
      (a b c : LendingPosition D) → same_account a b ≡ true → same_account a c ≡ same_account b c
  same_account_congr a b c h =
      let (pools, accounts) = same_account-eq a b h in rw (pools, accounts) refl

  same_account_symm : (a b : LendingPosition D) → same_account a b ≡ same_account b a
  same_account_symm a b = elim (Bool-cases (same_account a b)) [
    | inl e ↦ e ∙ sym (sym (same_account_congr a b a e) ∙ same_account_refl a)
    | inr e ↦ elim (Bool-cases (same_account b a)) [
      | inl f ↦ sym (same_account_congr b a b f) ∙ (same_account_refl b ∙ sym f)
      | inr f ↦ e ∙ sym f
    ]
  ]

  representatives-Holds :
      (r : LendingPosition D) (rows : List (LendingPosition D))
      → Holds r (representatives rows)
      → Holds r rows
  unfolding representatives
  representatives-Holds r [] m = m
  representatives-Holds r (x ∷ rows) (inl here) = inl here
  representatives-Holds r (x ∷ rows) (inr m) = inr (
      representatives-Holds r rows
        (Holds-filter (λ q. not (same_account x q)) r (representatives rows) m).0)

  representatives-IsShown :
      (r : LendingPosition D) (rows : List (LendingPosition D))
      → Holds r rows
      → (q : LendingPosition D) × Holds q (representatives rows) × (same_account q r ≡ true)
  unfolding representatives
  representatives-IsShown r [] m = absurd m
  representatives-IsShown r (x ∷ rows) (inl here) =
      (x, inl refl, subst (λ y. same_account x y ≡ true) here (same_account_refl x))
  representatives-IsShown r (x ∷ rows) (inr m) =
      let (q, there, same) = representatives-IsShown r rows m in
      elim (Bool-cases (same_account x q)) [
        | inl e ↦ (x, inl refl, same_account_congr x q r e ∙ same)
        | inr e ↦ (
          q,
          inr (
              filter-Holds (λ y. not (same_account x y)) q (representatives rows) there
                (rw e refl)),
          same,
        )
      ]

  representatives-distinct :
      (rows : List (LendingPosition D))
      → Pairwise (λ a b. same_account a b ≡ false) (representatives rows)
  unfolding representatives
  representatives-distinct [] = tt
  representatives-distinct (x ∷ rows) =
      let other = λ (q : LendingPosition D). not (same_account x q) in
      (
        All-of_at (λ q. same_account x q ≡ false) (filter other (representatives rows))
            (λ q m. let (there, e) = Holds-filter other q (representatives rows) m in ground arith),
        Pairwise-filter (λ a b. same_account a b ≡ false) other (representatives rows)
            (representatives-distinct rows),
      )

  module _ (rows : List (LendingPosition D)) where
    chosen : LendingPosition D → Option (LendingPosition D)
    chosen r = first_by (newest_first position_time) (filter (same_account r) rows)

    chosen-IsLatest :
        (r p : LendingPosition D) → chosen r ≡ some p → (same_account r p ≡ true) × IsLatest rows p
    unfolding chosen
    chosen-IsLatest r p e =
        let (there, first) =
          first_by-eq_some (newest_first position_time) (newest_first-order position_time)
            (filter (same_account r) rows) e in
        let (held, same) = Holds-filter (same_account r) p rows there in
        (
          same,
          (
            held,
            All-of_at (λ (q : LendingPosition D). SameAccount p q → q.time ≤ p.time) rows
                (λ q m f.
                  elim (All-at _ q (filter (same_account r) rows) first (
                    filter-Holds (same_account r) q rows m
                      (same_account_congr r p q same ∙ eq-same_account p q f))) [
                        | inl h ↦ leb→le q.time p.time h
                        | inr h ↦ subst (λ (x : LendingPosition D). x.time ≤ p.time) h (omega arith)
                      ]),
          ),
        )

    chosen-some :
        (r : LendingPosition D) → Holds r rows → (p : LendingPosition D) × (chosen r ≡ some p)
    unfolding chosen
    chosen-some r m = elim (Option-cases (chosen r)) [
      | inr found ↦ found
      | inl e ↦ absurd (
          first_by-no_none (newest_first position_time) (filter (same_account r) rows) r
            (filter-Holds (same_account r) r rows m (same_account_refl r)) e)
    ]

    -- Each row that is chosen is the newest of its account, each account has one, and only one.
    pub latest_positions-IsLatest :
        All (IsLatest rows) (latest_positions rows)
        × Pairwise OtherAccount (latest_positions rows)
        × All (IsShown (latest_positions rows)) rows
    unfolding latest_positions chosen
    latest_positions-IsLatest = (
      All-of_at (IsLatest rows) (latest_positions rows) (λ p m.
          let (r, there, e) = Holds-filter_map chosen p (representatives rows) m in
          (chosen-IsLatest r p e).1),
      Pairwise-filter_map chosen (representatives rows)
          (λ a a' b b' e e' other.
            let same = (chosen-IsLatest a b e).0 in
            let same' = (chosen-IsLatest a' b' e').0 in
            other_account b b' (
              sym (same_account_congr a b b' same)
              ∙ (same_account_symm a b'
                  ∙ (sym (same_account_congr a' b' a same') ∙ (same_account_symm a' a ∙ other)))))
          (representatives-distinct rows),
      All-of_at (IsShown (latest_positions rows)) rows (λ r m.
          let (q, there, same) = representatives-IsShown r rows m in
          let (p, e) = chosen-some q (representatives-Holds q rows there) in
          let same' = (chosen-IsLatest q p e).0 in
          (
            p,
            filter_map-Holds chosen q (representatives rows) there e,
            same_account-eq p r (sym (same_account_congr q p r same') ∙ same),
          )),
    )
