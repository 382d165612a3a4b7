-- ===== src/Gateway/Store/Enforcing.antt =====
-- The store serves only what was verified, and never less than it did.
use phulax.Prelude.{
  ℕ, Bool, true, false, ◌≡◌, ◌≢◌, ◌∙◌, Option, none, some, List, [], ◌∷◌, ◌==◌, ok, All, inl, inr,
  arith, Bool-cases, Option-cases, Result-cases,
}
use mathlib.Core.Path.{subst}
use phulax.Value.{ℤ, Value, list, dict, Items, Fields, end, field, get, Scalar, scalar, int, bool}
use phulax.Policy.Rules.{Bundle}
use phulax.Policy.Schema.Conditions.{CharOps}
use phulax.Policy.Schema.{parse_rules_data}
use phulax.Gateway.Store.{
  Cached, Fetched, unreachable, absent, document, Verifier, version_of, rules_data_of, find_entry,
  bundle_of, is_current, verify_rules, verify, refresh, get_bundle,
}

-- One call of `get`: when, for which organization, and what the control plane would answer.
pub record Ask (F : Type 0) : Type 0 where
  pub now : ℕ
  pub org_id : ℕ
  pub fetched : Fetched F

module _ {F : Type 0} ⦃chars : CharOps⦄ (verifier : Verifier F) (ttl : ℕ) where
  -- The bundle was published: some rules were signed with its version, as it was written, and parse
  -- to its rules.
  pub record IsVerified (b : Bundle F) : Type 0 where
    pub rules_data : Items F
    pub signature : Option (Value F)
    pub written : Scalar F
    pub version : version_of (some (scalar written)) ≡ some (written, b.version)
    pub signed : verifier.accepts written rules_data signature ≡ true
    pub parsed : parse_rules_data (dict (field "rules" (list rules_data) end)) ≡ ok b.rules

  abbrev pub AllVerified : List (ℕ × Cached F) → Type 0
  AllVerified cache = All (λ (entry : ℕ × Cached F). IsVerified (entry.1).bundle) cache

  version_of-written :
      (o : Option (Value F)) (w : Scalar F) (v : ℤ)
      → version_of o ≡ some (w, v)
      → version_of (some (scalar w)) ≡ some (w, v)
  version_of-written (some (scalar (int n))) w v e = ground arith
  version_of-written (some (scalar (bool true))) w v e = ground arith
  version_of-written (some (scalar (bool false))) w v e = ground arith
  version_of-written o w v e = ground arith

  verify_rules-IsVerified :
      (w : Scalar F) (v : ℤ) (vs : Items F) (s : Option (Value F)) (b : Bundle F)
      → version_of (some (scalar w)) ≡ some (w, v)
      → verify_rules verifier w v vs s ≡ some b
      → IsVerified b
  unfolding verify_rules
  verify_rules-IsVerified w v vs s b r h = elim (Bool-cases (verifier.accepts w vs s)) [
    | inr n ↦ absurd (ground arith)
    | inl y ↦ elim (Result-cases (parse_rules_data (dict (field "rules" (list vs) end)))) [
      | inr (issues, e) ↦ absurd (ground arith)
      | inl (rules, e) ↦ record {
        rules_data = vs;
        signature = s;
        written = w;
        version = ground arith;
        signed = ground arith;
        parsed = ground arith;
      }
    ]
  ]

  verify-IsVerified : (d : Fields F) (b : Bundle F) → verify verifier d ≡ some b → IsVerified b
  unfolding verify
  verify-IsVerified d b h = elim (Option-cases (version_of (get d "version"))) [
    | inl e ↦ absurd (ground arith)
    | inr ((w, v), e) ↦ elim (Option-cases (rules_data_of (get d "rules"))) [
      | inl e' ↦ absurd (ground arith)
      | inr (vs, e') ↦
          verify_rules-IsVerified w v vs (get d "signature") b
            (version_of-written (get d "version") w v e) (ground arith)
    ]
  ]

  find_entry-IsVerified :
      (org_id : ℕ) (cache : List (ℕ × Cached F)) (c : Cached F)
      → AllVerified cache
      → find_entry org_id cache ≡ some c
      → IsVerified c.bundle
  unfolding find_entry
  find_entry-IsVerified org_id [] c a h = absurd (ground arith)
  find_entry-IsVerified org_id ((k, x) ∷ cache) c (v, a) h = elim (Bool-cases (k == org_id)) [
    | inl y ↦
        let same : x ≡ c = ground arith in subst (λ (z : Cached F). IsVerified z.bundle) same v
    | inr n ↦ find_entry-IsVerified org_id cache c a (ground arith)
  ]

  bundle_of-IsVerified :
      (org_id : ℕ) (cache : List (ℕ × Cached F)) (b : Bundle F)
      → AllVerified cache
      → bundle_of (find_entry org_id cache) ≡ some b
      → IsVerified b
  bundle_of-IsVerified org_id cache b a h = elim (Option-cases (find_entry org_id cache)) [
    | inl e ↦ absurd (ground arith)
    | inr (c, e) ↦
        let same : c.bundle ≡ b = ground arith in
        subst IsVerified same (find_entry-IsVerified org_id cache c a e)
  ]

  get_bundle-AllVerified :
      (now org_id : ℕ) (fetched : Fetched F) (cache : List (ℕ × Cached F))
      → AllVerified cache
      → AllVerified (get_bundle verifier now ttl org_id fetched cache).1
        × ((b : Bundle F)
            → (get_bundle verifier now ttl org_id fetched cache).0 ≡ some b
            → IsVerified b)
  unfolding get_bundle refresh
  get_bundle-AllVerified now org_id fetched cache a =
      elim (Bool-cases (is_current now ttl (find_entry org_id cache))) [
        | inl y ↦ rw (y, get_bundle) (a, λ b. bundle_of-IsVerified org_id cache b a)
        | inr n ↦ rw (n, get_bundle) (asked fetched)
      ]
    where
      asked :
          (f : Fetched F)
          → AllVerified (refresh verifier now org_id f cache).1
            × ((b : Bundle F) → (refresh verifier now org_id f cache).0 ≡ some b → IsVerified b)
      asked unreachable = (a, λ b. bundle_of-IsVerified org_id cache b a)
      asked absent = (a, λ b. bundle_of-IsVerified org_id cache b a)
      asked (document d) = elim (Option-cases (verify verifier d)) [
        | inl e ↦ rw (e, refresh) (a, λ b. bundle_of-IsVerified org_id cache b a)
        | inr (b, e) ↦
            rw (e, refresh) ((verify-IsVerified d b e, a), λ b' h. verify-IsVerified d b' (e ∙ h))
      ]

  -- A history of calls, each on the cache that the one before left.
  unfoldable pub ask_all : List (Ask F) → List (ℕ × Cached F) → List (ℕ × Cached F)
  ask_all [] cache = cache
  ask_all (x ∷ asks) cache = ask_all asks (get_bundle verifier x.now ttl x.org_id x.fetched cache).1

  ask_all-AllVerified :
      (asks : List (Ask F)) (cache : List (ℕ × Cached F))
      → AllVerified cache
      → AllVerified (ask_all asks cache)
  unfolding ask_all
  ask_all-AllVerified [] cache a = a
  ask_all-AllVerified (x ∷ asks) cache a =
      ask_all-AllVerified asks (get_bundle verifier x.now ttl x.org_id x.fetched cache).1
        (get_bundle-AllVerified x.now x.org_id x.fetched cache a).0

  -- Whatever the control plane answered before and answers now, a bundle that a store serves which
  -- started empty is
  -- one whose signature was accepted for exactly its version and for rules that parse to its rules.
  pub get_bundle-IsVerified :
      (asks : List (Ask F)) (now org_id : ℕ) (fetched : Fetched F) (b : Bundle F)
      → (get_bundle verifier now ttl org_id fetched (ask_all asks [])).0 ≡ some b
      → IsVerified b
  get_bundle-IsVerified asks now org_id fetched b =
      (get_bundle-AllVerified now org_id fetched (ask_all asks [])
          (ask_all-AllVerified asks [] tt)).1
        b

  abbrev pub has_entry : ℕ → List (ℕ × Cached F) → Bool
  has_entry org_id cache = elim (find_entry org_id cache) [ none ↦ false | some c ↦ true ]

  get_bundle-has_entry :
      (now org_id id : ℕ) (fetched : Fetched F) (cache : List (ℕ × Cached F))
      → has_entry id cache ≡ true
      → has_entry id (get_bundle verifier now ttl org_id fetched cache).1 ≡ true
  unfolding get_bundle refresh find_entry
  get_bundle-has_entry now org_id id fetched cache h = ground arith

  ask_all-has_entry :
      (id : ℕ) (asks : List (Ask F)) (cache : List (ℕ × Cached F))
      → has_entry id cache ≡ true
      → has_entry id (ask_all asks cache) ≡ true
  unfolding ask_all
  ask_all-has_entry id [] cache h = h
  ask_all-has_entry id (x ∷ asks) cache h =
      ask_all-has_entry id asks (get_bundle verifier x.now ttl x.org_id x.fetched cache).1
        (get_bundle-has_entry x.now x.org_id id x.fetched cache h)

  serves :
      (now org_id : ℕ) (fetched : Fetched F) (cache : List (ℕ × Cached F))
      → has_entry org_id cache ≡ true
      → (get_bundle verifier now ttl org_id fetched cache).0 ≢ none
  unfolding get_bundle refresh
  serves now org_id fetched cache h k = ground arith

  -- Once the store has a bundle for an organization, it serves one from then on: no
  -- ControlPlaneError, no missing answer, and no rejected document leaves the organization without.
  pub get_bundle_serves :
      (asks : List (Ask F)) (cache : List (ℕ × Cached F)) (now org_id : ℕ) (fetched : Fetched F)
      → has_entry org_id cache ≡ true
      → (get_bundle verifier now ttl org_id fetched (ask_all asks cache)).0 ≢ none
  get_bundle_serves asks cache now org_id fetched h =
      serves now org_id fetched (ask_all asks cache) (ask_all-has_entry org_id asks cache h)
