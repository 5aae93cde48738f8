-- ===== src/Horizon/Pages.antt =====
-- What `get_all_pages` collects, against a crawl along the `next` links.
use lumina_analytics.Prelude.{
  ℕ, zero, suc, ◌*◌, ◌≤◌, String, ◌≡◌, refl, ap, ◌∙◌, ◌≢◌, ◌↔◌, ◌⊎◌, inl, inr, true, false, none,
  some, List, [], ◌∷◌, ◌++◌, arith, ltb, Bool-cases, Option-cases, length, length-append,
}
use mathlib.Core.List.{append-nil, append_assoc}
use lumina_analytics.Prelude.Outcome.{Outcome, ok, >>=-eq-ok}
use lumina_analytics.Horizon.{Page, follow_pages, get_all_pages, build_url}

module _ {T : Type 0} (fetch : String → Outcome (Page T)) where
  -- The records of the pages from `url` on, in order: at most so many pages, up to the first one that
  -- has no `next` link or no records.
  pub data Crawl : ℕ → String → List T → Type 0 where
    limit : (url : String) → Crawl zero url []
    last :
        (left : ℕ) (url : String) (page : Page T)
        → fetch url ≡ ok page
        → (page.next ≡ none) ⊎ (page.records ≡ [])
        → Crawl (suc left) url page.records
    more :
        (left : ℕ) (url href : String) (page : Page T) (rest : List T)
        → fetch url ≡ ok page
        → page.next ≡ some href
        → page.records ≢ []
        → Crawl left href rest
        → Crawl (suc left) url (page.records ++ rest)

eq-nil : {T : Type 0} {xs : List T} → ltb 0 (length xs) ≡ false → xs ≡ []
eq-nil {xs = []} h = refl
eq-nil {xs = x ∷ xs} h = ground arith

ne-nil : {T : Type 0} {xs : List T} → ltb 0 (length xs) ≡ true → xs ≢ []
ne-nil {xs = []} h e = cc
ne-nil {xs = x ∷ xs} h e = cc

module _ {T : Type 0} (fetch : String → Outcome (Page T)) where
  follow_pages-Crawl :
      (left : ℕ) (url : String) (out all : List T)
      → follow_pages fetch left url out ≡ ok all
      → (rest : List T) × Crawl fetch left url rest × (all ≡ out ++ rest)
  unfolding follow_pages
  follow_pages-Crawl zero url out all h = ([], Crawl.limit url, ground (arith, append-nil out))
  follow_pages-Crawl (suc left) url out all h =
      let (page, e, h') = >>=-eq-ok (fetch url) _ h in
      elim (Option-cases page.next) [
        | inl link ↦ (page.records, Crawl.last left url page e (inl link), ground arith)
        | inr (href, link) ↦ elim (Bool-cases (ltb 0 (length page.records))) [
          | inl some_records ↦
              let step : follow_pages fetch left href (out ++ page.records) ≡ ok all =
                ground arith in
              let (rest, crawl, q) = follow_pages-Crawl left href (out ++ page.records) all step in
              (
                page.records ++ rest,
                Crawl.more left url href page rest e link (ne-nil some_records) crawl,
                q ∙ append_assoc out page.records rest,
              )
          | inr no_records ↦
              (page.records, Crawl.last left url page e (inr (eq-nil no_records)), ground arith)
        ]
      ]

  Crawl-follow_pages :
      {left : ℕ} {url : String} {rest : List T} (out : List T)
      → Crawl fetch left url rest
      → follow_pages fetch left url out ≡ ok (out ++ rest)
  unfolding follow_pages
  Crawl-follow_pages out (Crawl.limit url) = rw append-nil
  Crawl-follow_pages out (Crawl.last left url page e stop) = ground arith
  Crawl-follow_pages out (Crawl.more left url href page rest e link some_records c) =
      let found : ltb 0 (length page.records) ≡ true = ground (arith, eq-nil {xs = page.records}) in
      rw (e, link, found)
        (Crawl-follow_pages (out ++ page.records) c ∙ ap ok (append_assoc out page.records rest))

  -- `get_all_pages` returns a list exactly where every page it reads can be fetched and the list is
  -- the records of those pages in order: at most `max_pages` pages along the `next` links, up to the
  -- first one without a link or without records.
  pub get_all_pages_iff :
      (base_url path : String) (query : List (String × String)) (max_pages : ℕ) (out : List T)
      → (get_all_pages fetch base_url path query max_pages ≡ ok out)
        ↔ Crawl fetch max_pages (build_url base_url path query) out
  unfolding get_all_pages
  get_all_pages_iff base_url path query max_pages out = (
    λ h. let (rest, crawl, e) = follow_pages-Crawl max_pages _ [] out h in rw e crawl,
    λ crawl. Crawl-follow_pages [] crawl,
  )

  Crawl-length :
      {left : ℕ} {url : String} {out : List T} (size : ℕ)
      → ((u : String) (page : Page T) → fetch u ≡ ok page → length page.records ≤ size)
      → Crawl fetch left url out
      → length out ≤ left * size
  Crawl-length size small (Crawl.limit url) = omega arith
  Crawl-length size small (Crawl.last left url page e stop) = grind (arith, small url page e)
  Crawl-length size small (Crawl.more left url href page rest e link some_records c) =
      grind (arith, small url page e, Crawl-length size small c, length-append page.records rest)

  -- If no page has more than `size` records, at most `max_pages` times as many are returned.
  pub get_all_pages-length :
      (size : ℕ)
      → ((u : String) (page : Page T) → fetch u ≡ ok page → length page.records ≤ size)
      → (base_url path : String) (query : List (String × String)) (max_pages : ℕ) {out : List T}
      → get_all_pages fetch base_url path query max_pages ≡ ok out
      → length out ≤ max_pages * size
  get_all_pages-length size small base_url path query max_pages {out} h =
      Crawl-length size small ((get_all_pages_iff base_url path query max_pages out).0 h)
