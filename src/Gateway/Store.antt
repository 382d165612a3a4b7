-- ===== src/Gateway/Store.antt =====
-- apps/gateway/src/phulax_gateway/policy_store.py: the cache of verified bundles.
pub mod Enforcing
use phulax.Prelude.{
  ℕ, ◌+◌, String, Bool, true, false, not, Option, none, some, List, [], ◌∷◌, ◌==◌, ltb,
  if◌then◌else◌, Result, ok, err,
}
use phulax.Value.{
  ℤ, Scalar, null, bool, int, Value, scalar, list, dict, Items, Fields, end, field, get,
}
use phulax.Policy.Rules.{Rule, Bundle}
use phulax.Policy.Schema.Conditions.{CharOps, Issue}
use phulax.Policy.Schema.{parse_rules_data}

-- _Cached; the clock counts in ticks.
pub record Cached (F : Type 0) : Type 0 where
  pub bundle : Bundle F
  pub fetched_at : ℕ

-- What `get_latest_bundle` does: it raises, it answers `None`, or it answers a document.
pub data Fetched (F : Type 0) : Type 0 where
  unreachable absent : Fetched F
  document : Fields F → Fetched F

-- `verify_bundle` with the public key of the store, on a version as it is written in the document
-- (the text that is signed has `true` where the version is `True`), rules, and what stands for the
-- signature.
pub record Verifier (F : Type 0) : Type 0 where
  pub accepts : Scalar F → Items F → Option (Value F) → Bool

module _ {F : Type 0} where
  -- `isinstance(version, int)`, which a `bool` is too: the version as it is written, and the number
  -- that it is equal to.
  abbrev pub version_of : Option (Value F) → Option (Scalar F × ℤ)
  version_of (some (scalar (int n))) = some (int n, n)
  version_of (some (scalar (bool true))) = some (bool true, ℤ.pos 1)
  version_of (some (scalar (bool false))) = some (bool false, ℤ.pos 0)
  version_of _ = none

  abbrev pub rules_data_of : Option (Value F) → Option (Items F)
  rules_data_of (some (list vs)) = some vs
  rules_data_of _ = none

  -- `self._cache.get(org_id)`; an entry that is stored hides the older ones of its organization.
  unfoldable pub find_entry : ℕ → List (ℕ × Cached F) → Option (Cached F)
  find_entry org_id [] = none
  find_entry org_id ((k, c) ∷ cache) = if k == org_id then some c else find_entry org_id cache

  -- `cached.bundle if cached else None`
  abbrev pub bundle_of : Option (Cached F) → Option (Bundle F)
  bundle_of none = none
  bundle_of (some c) = some c.bundle

  -- `now - cached.fetched_at < self._ttl`
  abbrev pub is_current : ℕ → ℕ → Option (Cached F) → Bool
  is_current now ttl none = false
  is_current now ttl (some c) = ltb now (c.fetched_at + ttl)

module _ {F : Type 0} ⦃chars : CharOps⦄ (verifier : Verifier F) where
  -- `_verify` once the document has the two fields.
  unfoldable pub verify_rules : Scalar F → ℤ → Items F → Option (Value F) → Option (Bundle F)
  verify_rules written version rules_data signature =
      if verifier.accepts written rules_data signature
      then (elim (parse_rules_data (dict (field "rules" (list rules_data) end))) [
        | err issues ↦ none
        | ok rules ↦ some (record { version = version; rules = rules })
      ])
      else none

  unfoldable pub verify : Fields F → Option (Bundle F)
  unfolding verify_rules
  verify data_ = elim (version_of (get data_ "version")) [
    | none ↦ none
    | some (written, version) ↦ elim (rules_data_of (get data_ "rules")) [
      | none ↦ none
      | some rules_data ↦ verify_rules written version rules_data (get data_ "signature")
    ]
  ]

  -- What follows the question to the control plane.
  unfoldable pub refresh :
      ℕ → ℕ → Fetched F → List (ℕ × Cached F) → Option (Bundle F) × List (ℕ × Cached F)
  refresh now org_id unreachable cache = (bundle_of (find_entry org_id cache), cache)
  refresh now org_id absent cache = (bundle_of (find_entry org_id cache), cache)
  refresh now org_id (document data_) cache = elim (verify data_) [
    | none ↦ (bundle_of (find_entry org_id cache), cache)
    | some bundle ↦ (some bundle, (org_id, record { bundle = bundle; fetched_at = now }) ∷ cache)
  ]

  -- `get`: the active bundle, and the cache after it. `fetched` is what the control plane answers
  -- if it is asked.
  unfoldable pub get_bundle :
      ℕ → ℕ → ℕ → Fetched F → List (ℕ × Cached F) → Option (Bundle F) × List (ℕ × Cached F)
  unfolding refresh
  get_bundle now ttl org_id fetched cache =
      if is_current now ttl (find_entry org_id cache)
      then (bundle_of (find_entry org_id cache), cache)
      else refresh now org_id fetched cache
