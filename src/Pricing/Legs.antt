-- ===== src/Pricing/Legs.antt =====
-- Both directions of `price_from_known_leg`.
use lumina_analytics.Prelude.{
  String, ◌≡◌, sym, ◌≢◌, ◌↔◌, ◌⊎◌, inl, inr, true, false, none, some, arith, Bool-cases,
  Option-cases,
}
use lumina_analytics.Prelude.Assoc.{pair_beq_iff, string_eq}
use lumina_analytics.Decimal.{DecimalOps}
use lumina_analytics.Decimal.Checked.{◌>>=◌}
use lumina_analytics.Pricing.{
  AssetId, asset_eq, parse_pool_asset, Priced, price_leg, price_from_known_leg,
}

pub asset_eq_iff : (x y : AssetId) → (asset_eq x y ≡ true) ↔ (x ≡ y)
unfolding asset_eq
asset_eq_iff x y = pair_beq_iff string_eq string_eq x y

module _ {D : Type 0} ⦃d : DecimalOps D⦄ where
  -- One leg is the known asset, the other one is `id` and has a reserve; the price is the ratio of
  -- the reserves times the known price.
  pub record IsLegPrice (known_leg : String) (known_reserve : D) (other_leg : String)
      (other_reserve : D) (known : AssetId) (known_price : D) (priced : Priced D) : Type 0 where
    pub known_is : parse_pool_asset known_leg ≡ known
    pub other_is : parse_pool_asset other_leg ≡ priced.0
    pub not_known : priced.0 ≢ known
    pub has_reserve : d.is_zero other_reserve ≡ false
    pub weight_is : priced.2 ≡ known_reserve
    pub price_is :
        (d.div known_reserve other_reserve >>= λ ratio. d.mul ratio known_price) ≡ some priced.1

  -- The order of the two legs does not matter, panics included.
  pub price_from_known_leg_comm :
      (asset_a : String) (reserve_a : D) (asset_b : String) (reserve_b : D) (known : AssetId)
      (known_price : D)
      → price_from_known_leg asset_a reserve_a asset_b reserve_b known known_price
        ≡ price_from_known_leg asset_b reserve_b asset_a reserve_a known known_price
  unfolding price_from_known_leg
  price_from_known_leg_comm asset_a reserve_a asset_b reserve_b known known_price =
      let id_a = parse_pool_asset asset_a in
      let id_b = parse_pool_asset asset_b in
      ground (
        arith,
        asset_eq_iff id_a id_b,
        asset_eq_iff id_b id_a,
        asset_eq_iff id_a known,
        asset_eq_iff id_b known,
      )

  price_leg-eq-some :
      (other : AssetId) (kr orr kp : D) {priced : Priced D}
      → price_leg other kr orr kp ≡ some (some priced)
      → (priced.0 ≡ other)
        × (priced.2 ≡ kr)
        × ((d.div kr orr >>= λ ratio. d.mul ratio kp) ≡ some priced.1)
  price_leg-eq-some other kr orr kp h = elim (Option-cases (d.div kr orr)) [
    | inl e ↦ ground arith
    | inr (r, e) ↦ ground arith
  ]

  -- A price that `price_from_known_leg` gives comes from one leg being the known asset and the other
  -- one, a different asset with a reserve, being the one that is priced.
  pub price_from_known_leg-IsLegPrice :
      (asset_a : String) (reserve_a : D) (asset_b : String) (reserve_b : D) (known : AssetId)
      (known_price : D) {priced : Priced D}
      → price_from_known_leg asset_a reserve_a asset_b reserve_b known known_price
        ≡ some (some priced)
      → IsLegPrice asset_a reserve_a asset_b reserve_b known known_price priced
        ⊎ IsLegPrice asset_b reserve_b asset_a reserve_a known known_price priced
  unfolding price_from_known_leg
  price_from_known_leg-IsLegPrice asset_a reserve_a asset_b reserve_b known known_price {priced} h =
      let id_a = parse_pool_asset asset_a in
      let id_b = parse_pool_asset asset_b in
      elim (Bool-cases (asset_eq id_a known)) [
        | inl e ↦
            let e' : price_leg id_b reserve_a reserve_b known_price ≡ some (some priced) =
              ground arith in
            let (p, q, r) = price_leg-eq-some id_b reserve_a reserve_b known_price e' in
            inl (record {
              known_is = (asset_eq_iff id_a known).0 e;
              other_is = sym p;
              not_known = ground (arith, asset_eq_iff id_a id_b, asset_eq_iff id_a known);
              has_reserve = ground arith;
              weight_is = q;
              price_is = r;
            })
        | inr e ↦
            let e' : price_leg id_a reserve_b reserve_a known_price ≡ some (some priced) =
              ground arith in
            let (p, q, r) = price_leg-eq-some id_a reserve_b reserve_a known_price e' in
            inr (record {
              known_is = ground (arith, asset_eq_iff id_b known);
              other_is = sym p;
              not_known =
                  ground (
                    arith,
                    asset_eq_iff id_a id_b,
                    asset_eq_iff id_b known,
                    asset_eq_iff id_a known,
                  );
              has_reserve = ground arith;
              weight_is = q;
              price_is = r;
            })
      ]

  -- `price_from_known_leg` gives no price exactly for a pool of one asset with itself, a pool without
  -- the known asset, and a pool whose other leg is empty.
  pub price_from_known_leg-none :
      (asset_a : String) (reserve_a : D) (asset_b : String) (reserve_b : D) (known : AssetId)
      (known_price : D)
      → let id_a = parse_pool_asset asset_a in
        let id_b = parse_pool_asset asset_b in
        (price_from_known_leg asset_a reserve_a asset_b reserve_b known known_price ≡ some none) ↔ (
          (id_a ≡ id_b)
          ⊎ ((id_a ≢ known) × (id_b ≢ known))
          ⊎ ((id_a ≡ known) × (d.is_zero reserve_b ≡ true))
          ⊎ ((id_b ≡ known) × (d.is_zero reserve_a ≡ true)))
  unfolding price_from_known_leg
  price_from_known_leg-none asset_a reserve_a asset_b reserve_b known known_price =
      let id_a = parse_pool_asset asset_a in
      let id_b = parse_pool_asset asset_b in
      ground (
        arith,
        asset_eq_iff id_a id_b,
        asset_eq_iff id_b id_a,
        asset_eq_iff id_a known,
        asset_eq_iff id_b known,
      )
