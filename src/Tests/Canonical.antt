-- ===== src/Tests/Canonical.antt =====
-- The canonical form on concrete inputs.
use phulax.Prelude.{
  String, Bool, true, false, ◌≡◌, refl, none, some, ltb, if◌then◌else◌, arith, eq_iff,
}
use phulax.Value.{ℤ, int, float, str, Value, scalar, dict, Fields, end, field, get}
use phulax.Gateway.Canonical.{FloatForm, normalize, canonical_hash}
use phulax.Gateway.Canonical.Same.{
  SameFields, more_fields, swapped, chained, no_fields, same, integral, canonical_hash-Same,
}
use phulax.Gateway.Canonical.Normal.{IsNormal, normalize-IsNormal_form}

-- A float that is an integer; from a thousand on it is not a number.
abbrev special : ℤ → Bool
special (ℤ.pos n) = if ltb n 1000 then false else true
special (ℤ.negsuc n) = false

instance abbrev form : FloatForm ℤ
form = record { is_special = special; as_int = λ x. some x }

abbrev written : Fields ℤ
written = field "amount" (scalar (float (ℤ.pos 25))) (field "id" (scalar (str "x")) end)

abbrev rewritten : Fields ℤ
rewritten = field "id" (scalar (str "x")) (field "amount" (scalar (int (ℤ.pos 25))) end)

abbrev sorted : Value ℤ
sorted = dict (field "amount" (scalar (int (ℤ.pos 25))) (field "id" (scalar (str "x")) end))

normalize_runs : normalize (dict written) ≡ some sorted
unfolding normalize phulax.Gateway.Canonical.insert phulax.Gateway.Canonical.text_lt
normalize_runs = refl

written-SameFields : SameFields written rewritten
written-SameFields =
    chained
      (swapped "amount" "id" (scalar (float (ℤ.pos 25))) (scalar (str "x")) end
        (ground (arith, eq_iff "amount" "id")))
      (more_fields "id" (same (scalar (str "x")))
        (more_fields "amount" (integral (ℤ.pos 25) (ℤ.pos 25) refl refl) no_fields))

abbrev dumps : Value ℤ → String
dumps v = "text"

abbrev sha256 : String → String
sha256 text = "hash"

canonical_hash-Same_example :
    canonical_hash dumps sha256 "refund" "dev" written
    ≡ canonical_hash dumps sha256 "refund" "dev" rewritten
canonical_hash-Same_example =
    canonical_hash-Same dumps sha256 "refund" "dev" written rewritten written-SameFields

normalize-IsNormal_form_example :
    (normalize sorted ≡ some sorted)
    × IsNormal sorted
    × (gs : Fields ℤ) × (sorted ≡ dict gs)
    × ((k : String) → get gs k ≡ elim (get written k) [ none ↦ none | some v ↦ normalize v ])
normalize-IsNormal_form_example = normalize-IsNormal_form written sorted normalize_runs
