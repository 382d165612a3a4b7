-- ===== src/Gateway/Canonical/Same.antt =====
-- Requests that are the same up to the order of keys and the spelling of numbers have one hash.
use phulax.Prelude.{String, false, Option, none, some, ◌≡◌, ◌≢◌, refl, ◌∙◌, ap, arith}
use phulax.Value.{ℤ, int, float, Value, scalar, list, dict, Items, nil, cons, Fields, end, field}
use phulax.Gateway.Canonical.{
  FloatForm, insert, insert_some, normalize_scalar, lift_scalar, normalize, normalize_items,
  normalize_fields, canonicalize, payload, canonical_hash,
}
use phulax.Gateway.Canonical.Order.{text_lt_asym, text_lt_trans, text_lt_total}

module _ {F : Type 0} ⦃form : FloatForm F⦄ where
  mutual
    -- The same request: an integral float may be written as its integer, and the entries of a
    -- mapping, which have different keys, may stand in any order.
    pub data Same : Value F → Value F → Type 0 where
      same : (v : Value F) → Same v v
      integral :
          (x : F) (n : ℤ)
          → form.is_special x ≡ false
          → form.as_int x ≡ some n
          → Same (scalar (float x)) (scalar (int n))
      lists : {vs ws : Items F} → SameItems vs ws → Same (list vs) (list ws)
      dicts : {fs gs : Fields F} → SameFields fs gs → Same (dict fs) (dict gs)

    pub data SameItems : Items F → Items F → Type 0 where
      no_items : SameItems nil nil
      more_items :
          {v w : Value F} {vs ws : Items F}
          → Same v w
          → SameItems vs ws
          → SameItems (cons v vs) (cons w ws)

    pub data SameFields : Fields F → Fields F → Type 0 where
      no_fields : SameFields end end
      more_fields :
          {v w : Value F} {fs gs : Fields F} (k : String)
          → Same v w
          → SameFields fs gs
          → SameFields (field k v fs) (field k w gs)
      swapped :
          (j k : String) (v w : Value F) (fs : Fields F)
          → j ≢ k
          → SameFields (field j v (field k w fs)) (field k w (field j v fs))
      chained : {fs gs hs : Fields F} → SameFields fs gs → SameFields gs hs → SameFields fs hs

  insert-insert :
      (j k : String) (v w : Value F) (fs : Fields F)
      → j ≢ k
      → insert j v (insert k w fs) ≡ insert k w (insert j v fs)
  unfolding insert
  insert-insert j k v w end h = ground (arith, text_lt_asym j k, text_lt_total j k)
  insert-insert j k v w (field i u fs) h = ground (
    arith,
    text_lt_asym j k,
    text_lt_asym k j,
    text_lt_total j k,
    text_lt_trans i j k,
    text_lt_trans i k j,
    insert-insert j k v w fs h,
  )

  insert_some-swap :
      (j k : String) (v w : Option (Value F)) (fs : Option (Fields F))
      → j ≢ k
      → insert_some j v (insert_some k w fs) ≡ insert_some k w (insert_some j v fs)
  insert_some-swap j k (some v) (some w) (some fs) h = ap some (insert-insert j k v w fs h)
  insert_some-swap j k (some v) (some w) none h = refl
  insert_some-swap j k (some v) none (some fs) h = refl
  insert_some-swap j k (some v) none none h = refl
  insert_some-swap j k none (some w) (some fs) h = refl
  insert_some-swap j k none (some w) none h = refl
  insert_some-swap j k none none (some fs) h = refl
  insert_some-swap j k none none none h = refl

  normalize_scalar-integral :
      (x : F) (n : ℤ)
      → form.is_special x ≡ false
      → form.as_int x ≡ some n
      → normalize_scalar (float x) ≡ some (int n)
  normalize_scalar-integral x n ordinary whole = rw (ordinary, whole) refl

  mutual
    unfolding normalize

    normalize-Same : {v w : Value F} → Same v w → normalize v ≡ normalize w
    normalize-Same (same v) = refl
    normalize-Same (integral x n ordinary whole) =
        ap lift_scalar (normalize_scalar-integral x n ordinary whole)
    normalize-Same (lists h) = rw (normalize_items-Same h) refl
    normalize-Same (dicts h) = rw (normalize_fields-Same h) refl

    normalize_items-Same :
        {vs ws : Items F} → SameItems vs ws → normalize_items vs ≡ normalize_items ws
    normalize_items-Same no_items = refl
    normalize_items-Same (more_items h k) = rw (normalize-Same h, normalize_items-Same k) refl

    normalize_fields-Same :
        {fs gs : Fields F} → SameFields fs gs → normalize_fields fs ≡ normalize_fields gs
    normalize_fields-Same no_fields = refl
    normalize_fields-Same (more_fields k h m) = rw (normalize-Same h, normalize_fields-Same m) refl
    normalize_fields-Same (swapped j k v w fs h) =
        insert_some-swap j k (normalize v) (normalize w) (normalize_fields fs) h
    normalize_fields-Same (chained h k) = normalize_fields-Same h ∙ normalize_fields-Same k

  -- Arguments that are the same but for the order of the keys at any depth, and for integral
  -- floats that are written as integers, have the same canonical hash for a tool and an
  -- environment, or none both.
  pub canonical_hash-Same :
      (dumps : Value F → String) (sha256 : String → String) (tool_name environment : String)
      (arguments arguments' : Fields F)
      → SameFields arguments arguments'
      → canonical_hash dumps sha256 tool_name environment arguments
        ≡ canonical_hash dumps sha256 tool_name environment arguments'
  unfolding canonical_hash canonicalize
  canonical_hash-Same dumps sha256 tool_name environment arguments arguments' h =
      let one : normalize (payload tool_name environment arguments)
          ≡ normalize (payload tool_name environment arguments') =
        normalize-Same (
          dicts (
            more_fields "tool" (same _) (
              more_fields "environment" (same _) (more_fields "arguments" (dicts h) no_fields)))) in
      rw (one, canonical_hash, canonicalize) refl
