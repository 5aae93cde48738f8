-- ===== src/Config/Prices.antt =====
-- The prices that `blend_asset_prices_usd` of src/config.rs gives.
use lumina_analytics.Prelude.{
  String, ◌≡◌, refl, sym, ap, ◌∙◌, ◌↔◌, inl, inr, false, Option, none, some, List, [], ◌∷◌, ◌++◌,
  All, str_eq, if◌then◌else◌, arith, Bool-cases, Option-cases, eq_iff, eq_refl,
}
use lumina_analytics.Prelude.Assoc.{string_eq, lookup, lookup-insert}
use lumina_analytics.Text.{split, split_once, trim, is_empty}
use lumina_analytics.Pricing.Assets.{
  has_colon, join_colon, IsSplit, split_once-join, has_colon-join, IsSplit-split_once,
}
use mathlib.Core.Path.{subst}
use mathlib.Core.Option.{some-injective}
use lumina_analytics.Decimal.{DecimalOps}
use lumina_analytics.Config.{parse_price, add_price, add_prices, blend_asset_prices_usd}

module _ {D : Type 0} (from_str : String → Option D) where
  -- An entry that is well formed: around its first colon, between white space, stand the address and a
  -- text that is a number, the price.
  abbrev pub IsPriceOf : String → D → String → Type 0
  IsPriceOf addr price entry =
      (before : String) × (after : String) × (has_colon before ≡ false)
      × (trim entry ≡ join_colon before after)
      × (trim before ≡ addr)
      × (from_str (trim after) ≡ some price)

  -- No well-formed entry for the address.
  abbrev pub IsPriceless : String → String → Type 0
  IsPriceless addr entry = (price : D) → IsPriceOf addr price entry → ⊥

  -- The price in the last well-formed entry for the address.
  abbrev pub IsLastPrice : String → D → List String → Type 0
  IsLastPrice addr price entries =
      (front : List String) × (entry : String) × (back : List String) × (entries
        ≡ front ++ entry ∷ back)
      × IsPriceOf addr price entry
      × All (IsPriceless addr) back

not_empty : (a b : String) → is_empty (join_colon a b) ≡ false
not_empty a b = elim (Bool-cases (is_empty (join_colon a b))) [
  | inl e ↦
      let same : join_colon a b ≡ "" = (eq_iff _ _).0 e in
      let none_there : has_colon (join_colon a b) ≡ false = rw same refl in cc (has_colon-join a b)
  | inr e ↦ e
]

module _ {D : Type 0} ⦃d : DecimalOps D⦄ where
  -- The price of one entry, if the entry is well formed and for the address.
  abbrev price_for : String → Option (String × D) → Option D
  price_for addr none = none
  price_for addr (some (a, p)) = if str_eq a addr then some p else none

  abbrev or_earlier : Option D → Option D → Option D
  or_earlier none earlier = earlier
  or_earlier (some p) earlier = some p

  -- The price in the last well-formed entry for the address.
  last_price : String → List String → Option D
  last_price addr [] = none
  last_price addr (entry ∷ entries) =
      or_earlier (last_price addr entries) (price_for addr (parse_price entry))

  lookup-add_price :
      (addr : String) (e : Option (String × D)) (out : List (String × D))
      → lookup addr (add_price e out) ≡ or_earlier (price_for addr e) (lookup addr out)
  lookup-add_price addr none out = refl
  lookup-add_price addr (some (a, p)) out = ground (arith, lookup-insert a addr p out)

  or_earlier_assoc :
      (x y z : Option D) → or_earlier x (or_earlier y z) ≡ or_earlier (or_earlier x y) z
  or_earlier_assoc none y z = refl
  or_earlier_assoc (some p) y z = refl

  lookup-add_prices :
      (addr : String) (entries : List String) (out : List (String × D))
      → lookup addr (add_prices entries out)
        ≡ or_earlier (last_price addr entries) (lookup addr out)
  unfolding add_prices last_price
  lookup-add_prices addr [] out = refl
  lookup-add_prices addr (entry ∷ entries) out =
      lookup-add_prices addr entries (add_price (parse_price entry) out)
      ∙ (ap (or_earlier (last_price addr entries)) (lookup-add_price addr (parse_price entry) out)
          ∙ or_earlier_assoc (last_price addr entries) (price_for addr (parse_price entry))
              (lookup addr out))

  parse_price-IsPriceOf :
      (entry addr : String) (price : D)
      → parse_price entry ≡ some (addr, price)
      → IsPriceOf d.from_str addr price entry
  unfolding parse_price
  parse_price-IsPriceOf entry addr price h = elim (Bool-cases (is_empty (trim entry))) [
    | inl e ↦ absurd (ground (arith, rw (e, parse_price) at h))
    | inr e ↦ elim (Option-cases (split_once b':' (trim entry))) [
      | inl q ↦ absurd (ground (arith, rw (e, q, parse_price) at h))
      | inr ((a, b), q) ↦ elim (Option-cases (d.from_str (trim b))) [
        | inl r ↦ absurd (ground (arith, rw (e, q, r, parse_price) at h))
        | inr (p, r) ↦
            let same : (trim a, p) ≡ (addr, price) =
              some-injective _ _ (rw (e, q, r, parse_price) at h) in
            let (no_colon, whole) : IsSplit (trim entry) (some (a, b)) =
              subst (IsSplit (trim entry)) q (IsSplit-split_once (trim entry)) in
            (a, b, no_colon, whole, ap (λ x. x.0) same, r ∙ ap (λ (x : String × D). some x.1) same)
      ]
    ]
  ]

  IsPriceOf-parse_price :
      (entry addr : String) (price : D)
      → IsPriceOf d.from_str addr price entry
      → parse_price entry ≡ some (addr, price)
  unfolding parse_price
  IsPriceOf-parse_price entry addr price (before, after, no_colon, whole, named, number) =
      rw
        (
          whole,
          not_empty before after,
          split_once-join before after no_colon,
          number,
          named,
          parse_price,
        )
        refl

  price_at-IsPriceOf :
      (addr entry : String) (price : D)
      → price_for addr (parse_price entry) ≡ some price
      → IsPriceOf d.from_str addr price entry
  price_at-IsPriceOf addr entry price h = elim (Option-cases (parse_price {D = D} entry)) [
    | inl q ↦ absurd (ground (arith, rw q at h))
    | inr ((a, p), q) ↦ elim (Bool-cases (str_eq a addr)) [
      | inl e ↦
          let own : p ≡ price = some-injective _ _ (rw (q, e) at h) in
          subst (λ x. IsPriceOf d.from_str addr x entry) own
            (subst (λ x. IsPriceOf d.from_str x p entry) ((eq_iff a addr).0 e)
              (parse_price-IsPriceOf entry a p q))
      | inr e ↦ absurd (ground (arith, rw (q, e) at h))
    ]
  ]

  IsPriceOf-price_at :
      (addr entry : String) (price : D)
      → IsPriceOf d.from_str addr price entry
      → price_for addr (parse_price entry) ≡ some price
  IsPriceOf-price_at addr entry price h =
      rw (IsPriceOf-parse_price entry addr price h, eq_refl addr) refl

  last_price-none :
      (addr : String) (entries : List String)
      → last_price addr entries ≡ none
      → All (IsPriceless d.from_str addr) entries
  unfolding last_price
  last_price-none addr [] h = tt
  last_price-none addr (entry ∷ entries) h = elim (Option-cases (last_price addr entries)) [
    | inr (p, q) ↦ absurd (ground (arith, rw (q, last_price) at h))
    | inl q ↦
        let here : price_for addr (parse_price entry) ≡ none = rw (q, last_price) at h in
        (
          λ price own. let e = IsPriceOf-price_at addr entry price own in cc,
          last_price-none addr entries q,
        )
  ]

  last_price-IsLastPrice :
      (addr : String) (entries : List String) (price : D)
      → last_price addr entries ≡ some price
      → IsLastPrice d.from_str addr price entries
  unfolding last_price
  last_price-IsLastPrice addr [] price h = cc
  last_price-IsLastPrice addr (entry ∷ entries) price h =
      elim (Option-cases (last_price addr entries)) [
        | inr (p, q) ↦
            let same : some p ≡ some price = rw (q, last_price) at h in
            let (front, e, back, split_up, own, after) =
              last_price-IsLastPrice addr entries price (q ∙ same) in
            (entry ∷ front, e, back, ap (λ rest. entry ∷ rest) split_up, own, after)
        | inl q ↦ (
          [],
          entry,
          entries,
          refl,
          price_at-IsPriceOf addr entry price (rw (q, last_price) at h),
          last_price-none addr entries q,
        )
      ]

  Priceless-last_price :
      (addr : String) (entries : List String)
      → All (IsPriceless d.from_str addr) entries
      → last_price addr entries ≡ none
  unfolding last_price
  Priceless-last_price addr [] h = refl
  Priceless-last_price addr (entry ∷ entries) (here, h) =
      elim (Option-cases (price_for addr (parse_price entry))) [
        | inl q ↦ rw (Priceless-last_price addr entries h, q, last_price) refl
        | inr (p, q) ↦ absurd (here p (price_at-IsPriceOf addr entry p q))
      ]

  last_price-append :
      (addr : String) (front : List String) (entry : String) (back : List String) (price : D)
      → IsPriceOf d.from_str addr price entry
      → All (IsPriceless d.from_str addr) back
      → last_price addr (front ++ entry ∷ back) ≡ some price
  unfolding last_price
  last_price-append addr [] entry back price own h =
      rw (Priceless-last_price addr back h, IsPriceOf-price_at addr entry price own, last_price)
        refl
  last_price-append addr (e ∷ front) entry back price own h =
      rw (last_price-append addr front entry back price own h, last_price) refl

  lookup-last_price :
      (raw addr : String)
      → lookup addr (blend_asset_prices_usd raw) ≡ last_price addr (split b',' raw)
  unfolding blend_asset_prices_usd lookup
  lookup-last_price raw addr =
      lookup-add_prices addr (split b',' raw) [] ∙ or_none (last_price addr (split b',' raw))
    where
      or_none : (x : Option D) → or_earlier x none ≡ x
      or_none none = refl
      or_none (some p) = refl

  -- The map holds a price for an address exactly if an entry between the commas of the text is well
  -- formed and for the address, and the price is then that of the last such entry. An entry is well
  -- formed if what stands after its first colon is a number, white space around the entry, the
  -- address and the number left aside; malformed and empty entries change nothing.
  pub blend_asset_prices_usd_lem :
      (raw addr : String)
      → ((price : D)
          → (lookup addr (blend_asset_prices_usd raw) ≡ some price)
            ↔ IsLastPrice d.from_str addr price (split b',' raw))
        × ((lookup {V = D} addr (blend_asset_prices_usd raw) ≡ none)
            ↔ All (IsPriceless d.from_str addr) (split b',' raw))
  blend_asset_prices_usd_lem raw addr =
      let entries = split b',' raw in
      let held = lookup-last_price raw addr in
      (
        λ price. (
          λ h. last_price-IsLastPrice addr entries price (sym held ∙ h),
          λ (front, entry, back, split_up, own, after).
              held
              ∙ (ap (last_price addr) split_up
                  ∙ last_price-append addr front entry back price own after),
        ),
        (
          λ h. last_price-none addr entries (sym held ∙ h),
          λ h. held ∙ Priceless-last_price addr entries h,
        ),
      )
