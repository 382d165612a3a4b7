-- ===== src/Gateway/Redaction/Absent.antt =====
-- What is sensitive is not in the preview.
use mathlib.Core.Path.{subst}
use phulax.Prelude.{
  String, ◌≡◌, refl, sym, none, some, List, [], ◌∷◌, str_eq, eq_iff, inl, inr, arith, if◌then◌else◌,
  Option-cases, All,
}
use text.Mathlib.TextPositions.{eq_refl}
use phulax.Value.{Value, scalar, list, dict, Fields, end, field, get}
use phulax.Value.Texts.{split_dots, split_dots-cons}
use phulax.Policy.Engine.Conditions.{walk}
use phulax.Gateway.Redaction.{strip_root, delete, put, remove, redact}

module _ {F : Type 0} where
  pub get-delete :
      (k j : String) (fs : Fields F) → get (delete k fs) j ≡ (if str_eq k j then none else get fs j)
  unfolding get delete
  get-delete k j end = ground arith
  get-delete k j (field i v fs) =
      ground (arith, get-delete k j fs, eq_iff k j, eq_iff i k, eq_iff i j)

  pub get-put :
      (k j : String) (v : Value F) (fs : Fields F)
      → get (put k v fs) j
        ≡ (if str_eq k j then (elim (get fs j) [ none ↦ none | some w ↦ some v ]) else get fs j)
  unfolding get put
  get-put k j v end = ground arith
  get-put k j v (field i w fs) =
      ground (arith, get-put k j v fs, eq_iff k j, eq_iff i k, eq_iff i j)

  -- The path leads nowhere.
  abbrev pub IsAbsent : List String → Fields F → Type 0
  IsAbsent parts fs = walk parts (dict fs) ≡ none

  remove-IsAbsent :
      (head : String) (rest : List String) (fs fs' : Fields F)
      → remove (head ∷ rest) fs ≡ some fs'
      → IsAbsent (head ∷ rest) fs'
  unfolding remove walk
  remove-IsAbsent head [] fs fs' h = elim (Option-cases (get fs head)) [
    | inl e ↦ absurd (ground arith)
    | inr (v, e) ↦ ground (arith, get-delete head head fs, eq_refl head)
  ]
  remove-IsAbsent head (next ∷ rest) fs fs' h = elim (Option-cases (get fs head)) [
    | inl e ↦ absurd (ground arith)
    | inr (scalar s, e) ↦ absurd (ground arith)
    | inr (list vs, e) ↦ absurd (ground arith)
    | inr (dict inner, e) ↦ elim (Option-cases (remove (next ∷ rest) inner)) [
      | inl e' ↦ absurd (ground arith)
      | inr (inner', e') ↦ ground (
        arith,
        get-put head head (dict inner') fs,
        eq_refl head,
        remove-IsAbsent next rest inner inner' e',
      )
    ]
  ]

  -- What is absent stays absent, whatever is removed.
  remove-IsAbsent_other :
      (path parts : List String) (fs fs' : Fields F)
      → remove path fs ≡ some fs'
      → IsAbsent parts fs
      → IsAbsent parts fs'
  unfolding remove walk
  remove-IsAbsent_other [] parts fs fs' h a = absurd (ground arith)
  remove-IsAbsent_other (head ∷ path) [] fs fs' h a = absurd (ground arith)
  remove-IsAbsent_other (head ∷ []) (k ∷ parts) fs fs' h a = elim (Option-cases (get fs head)) [
    | inl e ↦ absurd (ground arith)
    | inr (v, e) ↦ ground (arith, get-delete head k fs)
  ]
  remove-IsAbsent_other (head ∷ next ∷ rest) (k ∷ parts) fs fs' h a =
      elim (Option-cases (get fs head)) [
        | inl e ↦ absurd (ground arith)
        | inr (scalar s, e) ↦ absurd (ground arith)
        | inr (list vs, e) ↦ absurd (ground arith)
        | inr (dict inner, e) ↦ elim (Option-cases (remove (next ∷ rest) inner)) [
          | inl e' ↦ absurd (ground arith)
          | inr (inner', e') ↦ ground (
            arith,
            get-put head k (dict inner') fs,
            eq_iff head k,
            remove-IsAbsent_other (next ∷ rest) parts inner inner' e',
          )
        ]
      ]

  -- A path that is not removed was not there.
  remove-none :
      (head : String) (rest : List String) (fs : Fields F)
      → remove (head ∷ rest) fs ≡ none
      → IsAbsent (head ∷ rest) fs
  unfolding remove walk
  remove-none head [] fs h = ground arith
  remove-none head (next ∷ rest) fs h = elim (Option-cases (get fs head)) [
    | inl e ↦ ground arith
    | inr (scalar s, e) ↦ ground arith
    | inr (list vs, e) ↦ ground arith
    | inr (dict inner, e) ↦ ground (arith, remove-none next rest inner)
  ]

  redact-IsAbsent_other :
      (parts : List String) (fs : Fields F) (sensitive_paths : List String)
      → IsAbsent parts fs
      → IsAbsent parts (redact fs sensitive_paths).0
  unfolding redact
  redact-IsAbsent_other parts fs [] a = a
  redact-IsAbsent_other parts fs (raw ∷ raws) a =
      elim (Option-cases (remove (split_dots (strip_root raw)) fs)) [
        | inl e ↦ rw (e, redact) (redact-IsAbsent_other parts fs raws a)
        | inr (fs', e) ↦
            rw (e, redact)
              (redact-IsAbsent_other parts fs' raws
                (remove-IsAbsent_other (split_dots (strip_root raw)) parts fs fs' e a))
      ]

  remove-split-IsAbsent :
      (path : String) (fs fs' : Fields F)
      → remove (split_dots path) fs ≡ some fs'
      → IsAbsent (split_dots path) fs'
  remove-split-IsAbsent path fs fs' h =
      let (head, rest, e) = split_dots-cons path in
      rw e (remove-IsAbsent head rest fs fs' (rw e at h))

  remove-split_none :
      (path : String) (fs : Fields F)
      → remove (split_dots path) fs ≡ none
      → IsAbsent (split_dots path) fs
  remove-split_none path fs h =
      let (head, rest, e) = split_dots-cons path in rw e (remove-none head rest fs (rw e at h))

  redact-IsAbsent_head :
      (raw : String) (raws : List String) (fs : Fields F)
      → IsAbsent (split_dots (strip_root raw)) (redact fs (raw ∷ raws)).0
  unfolding redact
  redact-IsAbsent_head raw raws fs =
      let parts = split_dots (strip_root raw) in
      elim (Option-cases (remove parts fs)) [
        | inl e ↦
            rw (e, redact)
              (redact-IsAbsent_other parts fs raws (remove-split_none (strip_root raw) fs e))
        | inr (fs', e) ↦
            rw (e, redact)
              (redact-IsAbsent_other parts fs' raws
                (remove-split-IsAbsent (strip_root raw) fs fs' e))
      ]

  -- The mapping that is left for the other paths.
  after : String → Fields F → Fields F
  after raw fs = elim (remove (split_dots (strip_root raw)) fs) [ none ↦ fs | some fs' ↦ fs' ]

  redact-after :
      (raw : String) (raws : List String) (fs : Fields F)
      → (redact fs (raw ∷ raws)).0 ≡ (redact (after raw fs) raws).0
  unfolding redact after
  redact-after raw raws fs = elim (Option-cases (remove (split_dots (strip_root raw)) fs)) [
    | inl e ↦ rw (e, after, redact) refl
    | inr (fs', e) ↦ rw (e, after, redact) refl
  ]

  -- No sensitive path, with its `$.` taken off, leads anywhere in the preview: neither one that
  -- was removed and listed, nor one that is not listed.
  pub redact-IsAbsent :
      (arguments : Fields F) (sensitive_paths : List String)
      → All
          (λ raw. IsAbsent (split_dots (strip_root raw)) (redact arguments sensitive_paths).0)
          sensitive_paths
  redact-IsAbsent arguments [] = tt
  redact-IsAbsent arguments (raw ∷ raws) = (
    redact-IsAbsent_head raw raws arguments,
    subst (λ fs. All (λ path. IsAbsent (split_dots (strip_root path)) fs) raws)
        (sym (redact-after raw raws arguments)) (redact-IsAbsent (after raw arguments) raws),
  )
