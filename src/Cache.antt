-- ===== src/Cache.antt =====
-- src/cache.rs: values kept in Redis as texts. `to_string` and `from_str` are those of `serde_json`,
-- and whether Redis answers is an argument of each call; an entry that has expired is one that is not
-- answered.
pub mod Computed
use lumina_analytics.Prelude.{
  ℕ, String, Bool, true, false, not, ◌&&◌, Option, none, some, List, [], ◌∷◌, if◌then◌else◌,
}
use lumina_analytics.Prelude.Outcome.{Outcome, ok, err, panic}
use lumina_analytics.Prelude.Assoc.{string_eq, lookup, insert}

-- One call: whether there is a connection, what Redis does with the two commands, and what the
-- computation comes to.
pub record Call (T : Type 0) : Type 0 where
  pub connected : Bool
  pub gets : Bool
  pub sets : Bool
  pub key : String
  pub compute : Outcome T

module _ {T : Type 0} (to_string : T → Option String) (from_str : String → Option T) where
  unfoldable pub try_get : Call T → List (String × String) → Option T
  unfolding lookup
  try_get call entries =
      if call.gets
      then elim (lookup call.key entries) [ none ↦ none | some raw ↦ from_str raw ]
      else none

  unfoldable pub try_set : Call T → T → List (String × String) → List (String × String)
  unfolding insert
  try_set call value entries = elim (to_string value) [
    | none ↦ entries
    | some raw ↦ if call.sets then insert call.key raw entries else entries
  ]

  abbrev pub hit : Call T → List (String × String) → Option T
  hit call entries = if call.connected then try_get call entries else none

  abbrev pub after_compute :
      Call T → Outcome T → List (String × String) → Outcome T × List (String × String)
  after_compute call (ok value) entries =
      (ok value, if call.connected then try_set call value entries else entries)
  after_compute call err entries = (err, entries)
  after_compute call panic entries = (panic, entries)

  unfoldable pub get_or_compute :
      Call T → List (String × String) → Outcome T × List (String × String)
  unfolding try_get try_set
  get_or_compute call entries = elim (hit call entries) [
    | some value ↦ (ok value, entries)
    | none ↦ after_compute call call.compute entries
  ]
