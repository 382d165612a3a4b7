-- ===== src/ControlPlane/Policies/Versions.antt =====
-- apps/api/src/phulax_api/routers/policies.py: which bundle of an organization is the latest, and
-- what a gateway reads from it.
use mathlib.Core.Path.{subst}
use phulax.Prelude.{
  ℕ, ◌+◌, String, true, false, Option, some, List, [], ◌∷◌, ◌++◌, ◌≡◌, inl, inr, refl, ltb, ◌==◌,
  arith, ok, Option-cases, Result-cases, contains,
}
use phulax.Value.{int, ℤ, str, Value, scalar, list, dict, Items, items, keys, end, field, get}
use phulax.Policy.Rules.{Rule}
use phulax.Policy.Schema.Conditions.{CharOps, Where, Problem, unknown_keys}
use phulax.Policy.Schema.{parse_rules_data, parse_rules, complain}
use phulax.Policy.Schema.Document.{raise_errors-ok}
use phulax.Policy.Schema.Sound.{append-eq-nil}
use phulax.Gateway.Store.{Verifier, verify, verify_rules}
use phulax.ControlPlane.Db.{PolicyBundle, Db}
use phulax.ControlPlane.Policies.{
  BundlePublish, max_version, find_latest, latest_bundle, rules_entry, load_rules_document,
  new_bundle, insert_bundle, publish_bundle, bundle_out,
}

module _ {J : Type 0} where
  find_latest-newest :
      (org_id : ℕ) (rows : List (PolicyBundle J)) (b : PolicyBundle J)
      → (b.org_id == org_id) ≡ true
      → ltb (max_version org_id rows) b.version ≡ true
      → find_latest org_id (rows ++ (b ∷ [])) ≡ some b
  unfolding find_latest max_version
  find_latest-newest org_id [] b same newer = ground arith
  find_latest-newest org_id (c ∷ rows) b same newer =
      let h = find_latest-newest org_id rows b same in ground arith

  pub find_latest-other :
      (org_id : ℕ) (rows : List (PolicyBundle J)) (b : PolicyBundle J)
      → (b.org_id == org_id) ≡ false
      → find_latest org_id (rows ++ (b ∷ [])) ≡ find_latest org_id rows
  unfolding find_latest
  find_latest-other org_id [] b other = ground arith
  find_latest-other org_id (c ∷ rows) b other =
      let h = find_latest-other org_id rows b other in ground arith

  insert_bundle-latest :
      (signing_key : String) (sign : String → ℕ → J → String) (new_id org_id : ℕ) (data_ : J)
      (db : Db J)
      → let (b, db') = insert_bundle signing_key sign new_id org_id data_ db in
        (latest_bundle org_id db' ≡ ok b)
        × (ltb (max_version org_id db.policy_bundles) b.version ≡ true)
        × ((o : ℕ) → (org_id == o) ≡ false → latest_bundle o db' ≡ latest_bundle o db)
  unfolding insert_bundle latest_bundle
  insert_bundle-latest signing_key sign new_id org_id data_ db =
      let b =
        new_bundle signing_key sign new_id org_id (max_version org_id db.policy_bundles + 1)
          data_ in
      let above : ltb (max_version org_id db.policy_bundles) b.version ≡ true = ground arith in
      (
        rw (find_latest-newest org_id db.policy_bundles b (ground arith) above, latest_bundle) refl,
        above,
        λ o other. rw (find_latest-other o db.policy_bundles b other, latest_bundle) refl,
      )

module _ {F : Type 0} ⦃chars : CharOps⦄ where
  parse_rules_data-list :
      (vs : Items F) (rules : List (Rule F))
      → (parse_rules (items vs) 0 []).1 ≡ []
      → (parse_rules (items vs) 0 []).0 ≡ rules
      → parse_rules_data (dict (field "rules" (list vs) end)) ≡ ok rules
  unfolding parse_rules_data get keys unknown_keys contains
  parse_rules_data-list vs rules quiet same = ground arith

  -- The list of rules alone is parsed to the rules of the whole document.
  parse_rules_data-alone :
      (document : Value F) (rules : List (Rule F))
      → parse_rules_data document ≡ ok rules
      → (vs : Items F) × (rules_entry document ≡ some (list vs))
        × (parse_rules_data (dict (field "rules" (list vs) end)) ≡ ok rules)
  unfolding parse_rules_data
  parse_rules_data-alone (dict fs) rules h = elim (Option-cases (get fs "rules")) [
    | inl e ↦ ground arith
    | inr (scalar s, e) ↦ ground arith
    | inr (dict gs, e) ↦ ground arith
    | inr (list vs, e) ↦
        let (quiet, same) =
          raise_errors-ok
            (complain (unknown_keys fs ("rules" ∷ [])) Where.document Problem.unknown_fields
              ++ (parse_rules (items vs) 0 []).1)
            (parse_rules (items vs) 0 []).0 rules (ground arith) in
        let silent : (parse_rules (items vs) 0 []).1 ≡ [] = (append-eq-nil _ _ quiet).1 in
        (vs, e, parse_rules_data-list vs rules silent same)
  ]
  parse_rules_data-alone v rules h = cc

  load_rules_document-ok :
      (load_yaml : String → Option (Value F)) (text : String) (d : Option (Value F))
      (rules : List (Rule F))
      → load_rules_document load_yaml text ≡ ok (d, rules)
      → (vs : Items F) × (d ≡ some (list vs))
        × (parse_rules_data (dict (field "rules" (list vs) end)) ≡ ok rules)
  unfolding load_rules_document
  load_rules_document-ok load_yaml text d rules h = elim (Option-cases (load_yaml text)) [
    | inl e ↦ ground arith
    | inr (document, e) ↦ elim (Result-cases (parse_rules_data document)) [
      | inr (issues, e') ↦ ground arith
      | inl (accepted, e') ↦
          let (vs, listed, parsed) = parse_rules_data-alone document accepted e' in
          (vs, ground arith, ground arith)
    ]
  ]

  verify-bundle_out :
      (verifier : Verifier F) (b : PolicyBundle (Value F)) (vs : Items F) (rules : List (Rule F))
      → b.rules ≡ list vs
      → verifier.accepts (int (ℤ.pos b.version)) vs (some (scalar (str b.signature))) ≡ true
      → parse_rules_data (dict (field "rules" (list vs) end)) ≡ ok rules
      → verify verifier (bundle_out b) ≡ some (record { version = ℤ.pos b.version; rules = rules })
  unfolding verify verify_rules bundle_out get
  verify-bundle_out verifier b vs rules listed signed parsed = ground arith

  -- A bundle that is published is the latest of its organization and its version is above all
  -- earlier ones of the organization, the latest of the others stay as they were; and what the
  -- gateway reads from the response, if the verifier accepts what the key signed, is that version
  -- with the rules that the document was parsed to.
  pub publish_bundle-verify :
      (load_yaml : String → Option (Value F)) (signing_key : String)
      (sign : String → ℕ → Value F → String) (verifier : Verifier F) (new_id : ℕ)
      (body : BundlePublish) (db db' : Db (Value F)) (b : PolicyBundle (Value F))
      → ((version : ℕ) (vs : Items F)
          → verifier.accepts
              (int (ℤ.pos version))
              vs
              (some (scalar (str (sign signing_key version (list vs)))))
            ≡ true)
      → publish_bundle load_yaml signing_key sign new_id body db ≡ ok (b, db')
      → (latest_bundle body.org_id db' ≡ ok b)
        × (ltb (max_version body.org_id db.policy_bundles) b.version ≡ true)
        × ((o : ℕ) → (body.org_id == o) ≡ false → latest_bundle o db' ≡ latest_bundle o db)
        × (d : Option (Value F)) × (rules : List (Rule F)) × (load_rules_document load_yaml
              body.document
            ≡ ok (d, rules))
        × (verify verifier (bundle_out b)
            ≡ some (record { version = ℤ.pos b.version; rules = rules }))
  unfolding publish_bundle insert_bundle
  publish_bundle-verify load_yaml signing_key sign verifier new_id body db db' b signs h =
      elim (Result-cases (load_rules_document load_yaml body.document)) [
        | inr (issues, e) ↦ ground arith
        | inl ((d, rules), e) ↦
            let (vs, listed, parsed) = load_rules_document-ok load_yaml body.document d rules e in
            let (newest, above, others) =
              insert_bundle-latest signing_key sign new_id body.org_id (list vs) db in
            let same : insert_bundle signing_key sign new_id body.org_id (list vs) db ≡ (b, db') =
              ground arith in
            let p = insert_bundle signing_key sign new_id body.org_id (list vs) db in
            subst
              (λ p.
                (latest_bundle body.org_id p.1 ≡ ok p.0)
                × (ltb (max_version body.org_id db.policy_bundles) p.0.version ≡ true)
                × ((o : ℕ) → (body.org_id == o) ≡ false → latest_bundle o p.1 ≡ latest_bundle o db)
                × (d : Option (Value F)) × (rules : List (Rule F)) × (load_rules_document load_yaml
                      body.document
                    ≡ ok (d, rules))
                × (verify verifier (bundle_out p.0)
                    ≡ some (record { version = ℤ.pos p.0.version; rules = rules })))
              same
              (
                newest,
                above,
                others,
                d,
                rules,
                e,
                verify-bundle_out verifier p.0 vs rules refl (signs p.0.version vs) parsed,
              )
      ]
