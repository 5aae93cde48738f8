-- ===== src/Cache/Computed.antt =====
-- What `get_or_compute` of src/cache.rs returns was computed for the same key.
use lumina_analytics.Prelude.{
  String, ◌≡◌, refl, sym, ap, ◌∙◌, inl, inr, Option, none, some, List, [], ◌∷◌, if◌then◌else◌,
  Holds, arith, Bool-cases, Option-cases, str_eq, eq_iff,
}
use mathlib.Core.Path.{subst}
use mathlib.Core.Option.{some-injective}
use lumina_analytics.Prelude.Outcome.{Outcome, ok, err, panic, ok-injective}
use lumina_analytics.Prelude.Assoc.{string_eq, lookup, lookup-insert}
use lumina_analytics.Cache.{Call, try_get, try_set, hit, after_compute, get_or_compute}

module _ {T : Type 0} (to_string : T → Option String) (from_str : String → Option T) where
  -- The keys and values of all the computations that returned, the last one first.
  abbrev pub computed : Call T → List (String × T) → List (String × T)
  computed call history = elim call.compute [
    | ok v ↦ (call.key, v) ∷ history
    | err ↦ history
    | panic ↦ history
  ]

  -- Every entry that can be read was computed for its key.
  abbrev pub Faithful : List (String × T) → List (String × String) → Type 0
  Faithful history entries =
      (key raw : String) (v : T)
      → lookup key entries ≡ some raw
      → from_str raw ≡ some v
      → Holds (key, v) history

  abbrev pub RoundTrips : Type 0
  RoundTrips = (v w : T) (raw : String) → to_string v ≡ some raw → from_str raw ≡ some w → v ≡ w

  Faithful-more :
      (x : String × T) (history : List (String × T)) (entries : List (String × String))
      → Faithful history entries
      → Faithful (x ∷ history) entries
  Faithful-more x history entries f key raw v e g = inr (f key raw v e g)

  try_set-Faithful :
      (call : Call T) (v : T) (history : List (String × T)) (entries : List (String × String))
      → RoundTrips
      → Faithful history entries
      → Faithful ((call.key, v) ∷ history) (try_set to_string from_str call v entries)
  unfolding try_set
  try_set-Faithful call v history entries round f = elim (Option-cases (to_string v)) [
    | inl q ↦ rw (q, try_set) (Faithful-more (call.key, v) history entries f)
    | inr (raw, q) ↦ elim (Bool-cases call.sets) [
      | inr s ↦ rw (q, s, try_set) (Faithful-more (call.key, v) history entries f)
      | inl s ↦
          rw (q, s, try_set)
            (λ key raw' w e g.
              let found : (if str_eq call.key key then some raw else lookup key entries)
                  ≡ some raw' =
                sym (lookup-insert call.key key raw entries) ∙ e in
              elim (Bool-cases (str_eq call.key key)) [
                | inl same ↦
                    let own : call.key ≡ key = (eq_iff call.key key).0 same in
                    let text : raw ≡ raw' = some-injective _ _ (rw same at found) in
                    let value : v ≡ w = round v w raw q (ap from_str text ∙ g) in
                    inl (ap (λ k. (k, v)) own ∙ ap (λ x. (key, x)) value)
                | inr other ↦ inr (f key raw' w (rw other at found) g)
              ])
    ]
  ]

  -- The computation of a call runs only where there is no hit.
  abbrev pub log : Call T → List (String × String) → List (String × T) → List (String × T)
  log call entries history = elim (hit to_string from_str call entries) [
    | some v ↦ history
    | none ↦ computed call history
  ]

  abbrev pub Returns : Call T → List (String × T) → Outcome T → Type 0
  Returns call history o = (v : T) → o ≡ ok v → Holds (call.key, v) history

  hit-Holds :
      (call : Call T) (history : List (String × T)) (entries : List (String × String)) (v : T)
      → Faithful history entries
      → hit to_string from_str call entries ≡ some v
      → Holds (call.key, v) history
  unfolding try_get
  hit-Holds call history entries v f h = elim (Bool-cases call.connected) [
    | inr c ↦ absurd (ground (arith, rw c at h))
    | inl c ↦ elim (Bool-cases call.gets) [
      | inr g ↦ absurd (ground (arith, rw (c, g, try_get) at h))
      | inl g ↦ elim (Option-cases (lookup call.key entries)) [
        | inl q ↦ absurd (ground (arith, rw (c, g, q, try_get) at h))
        | inr (raw, q) ↦ f call.key raw v q (rw (c, g, q, try_get) at h)
      ]
    ]
  ]

  miss-Faithful :
      (call : Call T) (o : Outcome T) (history : List (String × T))
      (entries : List (String × String))
      → call.compute ≡ o
      → RoundTrips
      → Faithful history entries
      → Faithful (computed call history) (after_compute to_string from_str call o entries).1
        × Returns call (computed call history) (after_compute to_string from_str call o entries).0
  unfolding try_set
  miss-Faithful call err history entries e round f = rw e (f, λ v h. cc)
  miss-Faithful call panic history entries e round f = rw e (f, λ v h. cc)
  miss-Faithful call (ok w) history entries e round f = elim (Bool-cases call.connected) [
    | inl c ↦
        rw (e, c)
          (
            try_set-Faithful call w history entries round f,
            λ v h. inl (ap (λ x. (call.key, x)) (ok-injective h)),
          )
    | inr c ↦
        rw (e, c)
          (
            Faithful-more (call.key, w) history entries f,
            λ v h. inl (ap (λ x. (call.key, x)) (ok-injective h)),
          )
  ]

  pub get_or_compute-Faithful :
      (call : Call T) (history : List (String × T)) (entries : List (String × String))
      → RoundTrips
      → Faithful history entries
      → Faithful (log call entries history) (get_or_compute to_string from_str call entries).1
        × Returns call (log call entries history) (get_or_compute to_string from_str call entries).0
  unfolding get_or_compute
  get_or_compute-Faithful call history entries round f =
      elim (Option-cases (hit to_string from_str call entries)) [
        | inl q ↦
            let logged : computed call history ≡ log call entries history = rw (q, log) refl in
            let runs : after_compute to_string from_str call call.compute entries
                ≡ get_or_compute to_string from_str call entries =
              rw (q, get_or_compute) refl in
            subst
              (λ h.
                Faithful h (get_or_compute to_string from_str call entries).1
                × Returns call h (get_or_compute to_string from_str call entries).0)
              logged
              (subst
                (λ r.
                  Faithful (computed call history) r.1 × Returns call (computed call history) r.0)
                runs (miss-Faithful call call.compute history entries refl round f))
        | inr (v, q) ↦
            let logged : history ≡ log call entries history = rw (q, log) refl in
            let found : Outcome T × List (String × String) = (ok v, entries) in
            let runs : found ≡ get_or_compute to_string from_str call entries =
              rw (q, get_or_compute) refl in
            subst
              (λ h.
                Faithful h (get_or_compute to_string from_str call entries).1
                × Returns call h (get_or_compute to_string from_str call entries).0)
              logged
              (subst (λ r. Faithful history r.1 × Returns call history r.0) runs
                (
                  f,
                  λ w h.
                      subst (λ x. Holds (call.key, x) history) (ok-injective h)
                        (hit-Holds call history entries v f q),
                ))
      ]

  -- Calls in a row: each one returned a value that was computed by then for its key.
  pub AllReturn : List (Call T) → List (String × T) → List (String × String) → Type 0
  AllReturn [] history entries = Unit
  AllReturn (call ∷ calls) history entries =
      Returns call (log call entries history) (get_or_compute to_string from_str call entries).0
      × AllReturn calls (log call entries history)
          (get_or_compute to_string from_str call entries).1

  Faithful-AllReturn :
      (calls : List (Call T)) (history : List (String × T)) (entries : List (String × String))
      → RoundTrips
      → Faithful history entries
      → AllReturn calls history entries
  unfolding AllReturn
  Faithful-AllReturn [] history entries round f = tt
  Faithful-AllReturn (call ∷ calls) history entries round f =
      let (f', returned) = get_or_compute-Faithful call history entries round f in
      (
        returned,
        Faithful-AllReturn calls (log call entries history)
            (get_or_compute to_string from_str call entries).1 round f',
      )

  -- If a text reads back as nothing else than the value that it was written from: in any sequence of
  -- calls from an empty cache, whatever Redis answers, stores or forgets, each value that
  -- `get_or_compute` returns was computed, by that call or an earlier one, for the same key.
  pub get_or_compute-AllReturn : (calls : List (Call T)) → RoundTrips → AllReturn calls [] []
  unfolding lookup
  get_or_compute-AllReturn calls round = Faithful-AllReturn calls [] [] round (λ key raw v e g. cc)
