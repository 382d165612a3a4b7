-- ===== src/Gateway/Canonical/Order.antt =====
-- The order of the keys.
use Prim.Native.Char.{code}
use Prim.Native.String.{String}
use text.Mathlib.TextEquality.{Char-path}
use phulax.Prelude.{true, false, ◌≡◌, refl, arith}
use phulax.Gateway.Canonical.{text_lt}

pub text_lt_asym : (s t : String) → text_lt s t ≡ true → text_lt t s ≡ false
unfolding text_lt
text_lt_asym String.[] String.[] h = cc
text_lt_asym String.[] (String.◌∷◌ d t) h = refl
text_lt_asym (String.◌∷◌ c s) String.[] h = cc
text_lt_asym (String.◌∷◌ c s) (String.◌∷◌ d t) h = ground (arith, text_lt_asym s t)

pub text_lt_trans : (s t u : String) → text_lt s t ≡ true → text_lt t u ≡ true → text_lt s u ≡ true
unfolding text_lt
text_lt_trans String.[] (String.◌∷◌ d t) (String.◌∷◌ e u) h k = refl
text_lt_trans String.[] (String.◌∷◌ d t) String.[] h k = cc
text_lt_trans String.[] String.[] u h k = cc
text_lt_trans (String.◌∷◌ c s) String.[] u h k = cc
text_lt_trans (String.◌∷◌ c s) (String.◌∷◌ d t) String.[] h k = cc
text_lt_trans (String.◌∷◌ c s) (String.◌∷◌ d t) (String.◌∷◌ e u) h k =
    ground (arith, text_lt_trans s t u)

-- Two texts of which neither is smaller are equal.
pub text_lt_total : (s t : String) → text_lt s t ≡ false → text_lt t s ≡ false → s ≡ t
unfolding text_lt
text_lt_total String.[] String.[] h k = refl
text_lt_total String.[] (String.◌∷◌ d t) h k = cc
text_lt_total (String.◌∷◌ c s) String.[] h k = cc
text_lt_total (String.◌∷◌ c s) (String.◌∷◌ d t) h k =
    let one : code c ≡ code d = ground arith in
    let rest = text_lt_total s t (ground arith) (ground arith) in cc (Char-path c d one, rest)
