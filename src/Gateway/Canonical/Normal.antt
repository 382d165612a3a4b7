-- ===== src/Gateway/Canonical/Normal.antt =====
-- What the normal form is: it has the values of the request under their keys, and it is its own
-- normal form.
use mathlib.Core.Option.{some-injective}
use mathlib.Core.Path.{subst}
use phulax.Prelude.{
  String, true, false, Option, none, some, ◌≡◌, refl, ◌∙◌, sym, ap, inl, inr, arith, str_eq, eq_iff,
  if◌then◌else◌, Bool-cases, Option-cases,
}
use phulax.Value.{
  Scalar, float, Value, scalar, list, dict, Items, nil, cons, Fields, end, field, get,
}
use phulax.Gateway.Canonical.{
  FloatForm, text_lt, insert, insert_some, cons_some, normalize_scalar, lift_scalar, normalize,
  normalize_items, normalize_fields,
}
use phulax.Gateway.Canonical.Order.{text_lt_asym}

module _ {F : Type 0} where
  get-insert :
      (k : String) (v : Value F) (fs : Fields F) (j : String)
      → get (insert k v fs) j ≡ (if str_eq k j then some v else get fs j)
  unfolding insert get
  get-insert k v end j = refl
  get-insert k v (field i w fs) j =
      ground
        (arith, eq_iff k j, eq_iff i j, text_lt_asym i k, text_lt_asym j j, get-insert k v fs j)

  -- The first key, if there is one, is not smaller.
  abbrev IsBelow : String → Fields F → Type 0
  IsBelow k end = Unit
  IsBelow k (field j w fs) = text_lt j k ≡ false

  insert-IsBelow :
      (k : String) (v : Value F) (fs : Fields F) → IsBelow k fs → insert k v fs ≡ field k v fs
  unfolding insert
  insert-IsBelow k v end h = refl
  insert-IsBelow k v (field j w fs) h = rw h refl

  IsBelow-insert :
      (j k : String) (v : Value F) (fs : Fields F)
      → text_lt j k ≡ true
      → IsBelow j fs
      → IsBelow j (insert k v fs)
  unfolding insert
  IsBelow-insert j k v end h b = text_lt_asym j k h
  IsBelow-insert j k v (field i w fs) h b = elim (Bool-cases (text_lt i k)) [
    | inl y ↦ rw (y, insert) b
    | inr n ↦ rw (n, insert) (text_lt_asym j k h)
  ]

module _ {F : Type 0} ⦃form : FloatForm F⦄ where
  -- A normal form: no integral float, and mappings sorted by their keys.
  mutual
    pub IsNormal : Value F → Type 0
    IsNormal (scalar s) = normalize_scalar s ≡ some s
    IsNormal (list vs) = AreNormal vs
    IsNormal (dict fs) = IsSorted fs

    pub AreNormal : Items F → Type 0
    AreNormal nil = Unit
    AreNormal (cons v vs) = IsNormal v × AreNormal vs

    pub IsSorted : Fields F → Type 0
    IsSorted end = Unit
    IsSorted (field k v fs) = IsNormal v × IsBelow k fs × IsSorted fs

  insert-IsSorted :
      (k : String) (v : Value F) (fs : Fields F)
      → IsNormal v
      → IsSorted fs
      → IsSorted (insert k v fs)
  unfolding insert IsNormal
  insert-IsSorted k v end n s = (n, tt, tt)
  insert-IsSorted k v (field j w fs) n (m, b, s) = elim (Bool-cases (text_lt j k)) [
    | inl y ↦ rw (y, insert) (m, IsBelow-insert j k v fs y b, insert-IsSorted k v fs n s)
    | inr f ↦ rw (f, insert) (n, f, (m, b, s))
  ]

  normalize_scalar-IsNormal :
      (s t : Scalar F) → normalize_scalar s ≡ some t → normalize_scalar t ≡ some t
  normalize_scalar-IsNormal (float x) t h = ground arith
  normalize_scalar-IsNormal s t h = ground arith

  lift-some :
      (o : Option (Scalar F)) (w : Value F)
      → lift_scalar o ≡ some w
      → (s : Scalar F) × (o ≡ some s) × (scalar s ≡ w)
  lift-some none w h = cc
  lift-some (some s) w h = (s, refl, some-injective _ _ h)

  cons-some :
      (a : Option (Value F)) (b : Option (Items F)) (ws : Items F)
      → cons_some a b ≡ some ws
      → (v : Value F) × (vs : Items F) × (a ≡ some v) × (b ≡ some vs) × (cons v vs ≡ ws)
  cons-some (some v) (some vs) ws h = (v, vs, refl, refl, some-injective _ _ h)
  cons-some (some v) none ws h = cc
  cons-some none (some vs) ws h = cc
  cons-some none none ws h = cc

  insert-some :
      (k : String) (a : Option (Value F)) (b : Option (Fields F)) (gs : Fields F)
      → insert_some k a b ≡ some gs
      → (v : Value F) × (fs : Fields F) × (a ≡ some v) × (b ≡ some fs) × (insert k v fs ≡ gs)
  insert-some k (some v) (some fs) gs h = (v, fs, refl, refl, some-injective _ _ h)
  insert-some k (some v) none gs h = cc
  insert-some k none (some fs) gs h = cc
  insert-some k none none gs h = cc

  mutual
    unfolding normalize IsNormal

    normalize-IsNormal : (v w : Value F) → normalize v ≡ some w → IsNormal w
    normalize-IsNormal (scalar s) w h =
        let (t, e, e') = lift-some (normalize_scalar s) w h in
        subst IsNormal e' (normalize_scalar-IsNormal s t e)
    normalize-IsNormal (list vs) w h = elim (Option-cases (normalize_items vs)) [
      | inl e ↦ absurd (ground arith)
      | inr (ws, e) ↦
          let one : list ws ≡ w = some-injective _ _ (rw (e, normalize) at h) in
          subst IsNormal one (normalize_items-AreNormal vs ws e)
    ]
    normalize-IsNormal (dict fs) w h = elim (Option-cases (normalize_fields fs)) [
      | inl e ↦ absurd (ground arith)
      | inr (gs, e) ↦
          let one : dict gs ≡ w = some-injective _ _ (rw (e, normalize) at h) in
          subst IsNormal one (normalize_fields-IsSorted fs gs e)
    ]

    normalize_items-AreNormal : (vs ws : Items F) → normalize_items vs ≡ some ws → AreNormal ws
    normalize_items-AreNormal nil ws h = subst AreNormal (some-injective _ _ h) tt
    normalize_items-AreNormal (cons v vs) ws h =
        let (x, xs, e, e', k) = cons-some (normalize v) (normalize_items vs) ws h in
        subst AreNormal k (normalize-IsNormal v x e, normalize_items-AreNormal vs xs e')

    normalize_fields-IsSorted : (fs gs : Fields F) → normalize_fields fs ≡ some gs → IsSorted gs
    normalize_fields-IsSorted end gs h = subst IsSorted (some-injective _ _ h) tt
    normalize_fields-IsSorted (field k v fs) gs h =
        let (x, xs, e, e', m) = insert-some k (normalize v) (normalize_fields fs) gs h in
        subst IsSorted m
          (insert-IsSorted k x xs (normalize-IsNormal v x e) (normalize_fields-IsSorted fs xs e'))

  mutual
    unfolding normalize IsNormal

    normal-normalize : (v : Value F) → IsNormal v → normalize v ≡ some v
    normal-normalize (scalar s) h = rw h refl
    normal-normalize (list vs) h = rw (normal-normalize_items vs h) refl
    normal-normalize (dict fs) h = rw (normal-normalize_fields fs h) refl

    normal-normalize_items : (vs : Items F) → AreNormal vs → normalize_items vs ≡ some vs
    normal-normalize_items nil h = refl
    normal-normalize_items (cons v vs) (h, hs) =
        rw (normal-normalize v h, normal-normalize_items vs hs) refl

    normal-normalize_fields : (fs : Fields F) → IsSorted fs → normalize_fields fs ≡ some fs
    normal-normalize_fields end h = refl
    normal-normalize_fields (field k v fs) (h, b, hs) =
        rw (normal-normalize v h, normal-normalize_fields fs hs) (ap some (insert-IsBelow k v fs b))

  get-normalize_fields :
      (fs gs : Fields F) (k : String)
      → normalize_fields fs ≡ some gs
      → get gs k ≡ elim (get fs k) [ none ↦ none | some v ↦ normalize v ]
  unfolding normalize get
  get-normalize_fields end gs k h = rw⁻¹ (some-injective _ _ h) refl
  get-normalize_fields (field j v fs) gs k h =
      let (x, xs, e, e', m) = insert-some j (normalize v) (normalize_fields fs) gs h in
      rw⁻¹ m (
        get-insert j x xs k ∙ elim (Bool-cases (str_eq j k)) [
          | inl y ↦ rw y (sym e)
          | inr n ↦ rw n (get-normalize_fields fs xs k e')
        ])

  -- The normal form of a mapping, where it has one, is its own normal form, its keys are sorted at
  -- every depth, and under each key it has the normal form of the value that the mapping has there.
  pub normalize-IsNormal_form :
      (fs : Fields F) (w : Value F)
      → normalize (dict fs) ≡ some w
      → (normalize w ≡ some w)
        × IsNormal w
        × (gs : Fields F) × (w ≡ dict gs)
        × ((k : String) → get gs k ≡ elim (get fs k) [ none ↦ none | some v ↦ normalize v ])
  unfolding normalize
  normalize-IsNormal_form fs w h = elim (Option-cases (normalize_fields fs)) [
    | inl e ↦ absurd (ground arith)
    | inr (gs, e) ↦
        let normal = normalize-IsNormal (dict fs) w h in
        let one : dict gs ≡ w = some-injective _ _ (rw (e, normalize) at h) in
        (normal-normalize w normal, normal, gs, sym one, λ k. get-normalize_fields fs gs k e)
  ]
