-- ===== src/Gateway/Redaction/Kept.antt =====
-- What is not sensitive is kept.
use phulax.Prelude.{
  String, false, ◌≡◌, refl, ◌∙◌, some, List, [], ◌∷◌, str_eq, eq_iff, inl, inr, ◌⊎◌, arith,
  Option-cases, All,
}
use phulax.Value.{scalar, list, dict, Fields, get}
use phulax.Value.Texts.{split_dots}
use phulax.Policy.Engine.Conditions.{walk}
use phulax.Gateway.Redaction.{strip_root, remove, redact}
use phulax.Gateway.Redaction.Absent.{get-delete, get-put}

-- At some part the paths differ, so that neither leads through the other.
abbrev pub Diverges : List String → List String → Type 0
Diverges (p ∷ ps) (q ∷ qs) = (str_eq p q ≡ false) ⊎ Diverges ps qs
Diverges _ _ = ⊥

module _ {F : Type 0} where
  remove-kept :
      (path parts : List String) (fs fs' : Fields F)
      → remove path fs ≡ some fs'
      → Diverges path parts
      → walk parts (dict fs') ≡ walk parts (dict fs)
  unfolding remove walk
  remove-kept [] parts fs fs' h d = absurd (ground arith)
  remove-kept (head ∷ []) [] fs fs' h d = elim d [ ]
  remove-kept (head ∷ next ∷ rest) [] fs fs' h d = elim d [ ]
  remove-kept (head ∷ []) (k ∷ parts) fs fs' h (inr d) = elim d [ ]
  remove-kept (head ∷ []) (k ∷ parts) fs fs' h (inl n) = elim (Option-cases (get fs head)) [
    | inl e ↦ absurd (ground arith)
    | inr (v, e) ↦ ground (arith, get-delete head k fs)
  ]
  remove-kept (head ∷ next ∷ rest) (k ∷ parts) fs fs' h d = elim (Option-cases (get fs head)) [
    | inl e ↦ absurd (ground arith)
    | inr (scalar s, e) ↦ absurd (ground arith)
    | inr (list vs, e) ↦ absurd (ground arith)
    | inr (dict inner, e) ↦ elim (Option-cases (remove (next ∷ rest) inner)) [
      | inl e' ↦ absurd (ground arith)
      | inr (inner', e') ↦
          let shown = get-put head k (dict inner') fs in
          elim d [
            | inl n ↦ ground arith
            | inr later ↦
                let deeper = remove-kept (next ∷ rest) parts inner inner' e' later in
                ground (arith, eq_iff head k)
          ]
    ]
  ]

  -- Whatever path diverges from every sensitive path leads to the same value in the preview as in
  -- the arguments, or to nothing in both.
  pub redact_kept :
      (parts : List String) (arguments : Fields F) (sensitive_paths : List String)
      → All (λ raw. Diverges (split_dots (strip_root raw)) parts) sensitive_paths
      → walk parts (dict (redact arguments sensitive_paths).0) ≡ walk parts (dict arguments)
  unfolding redact
  redact_kept parts arguments [] d = refl
  redact_kept parts arguments (raw ∷ raws) (d, ds) =
      elim (Option-cases (remove (split_dots (strip_root raw)) arguments)) [
        | inl e ↦ rw (e, redact) (redact_kept parts arguments raws ds)
        | inr (fs', e) ↦
            rw (e, redact)
              (redact_kept parts fs' raws ds
                ∙ remove-kept (split_dots (strip_root raw)) parts arguments fs' e d)
      ]
