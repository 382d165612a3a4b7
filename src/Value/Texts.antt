-- ===== src/Value/Texts.antt =====
-- The operations on texts that the program uses: `split(".")` and `endswith`.
use Prim.Native.Char.{Char, code}
use Prim.Native.String.{String}
use phulax.Prelude.{
  Bool, true, ◌||◌, List, [], ◌∷◌, ◌≡◌, refl, str_eq, ◌==◌, if◌then◌else◌, Bool-cases, inl, inr,
}

abbrev push : Char → List String → List String
push c [] = String.◌∷◌ c "" ∷ []
push c (p ∷ ps) = String.◌∷◌ c p ∷ ps

-- `s.split(".")`
unfoldable pub split_dots : String → List String
split_dots String.[] = "" ∷ []
split_dots (String.◌∷◌ c s) =
    let rest = split_dots s in if code c == b'.' then "" ∷ rest else push c rest

-- `s.endswith(t)`
unfoldable pub ends_with : String → String → Bool
ends_with String.[] t = str_eq "" t
ends_with (String.◌∷◌ c s) t = str_eq (String.◌∷◌ c s) t || ends_with s t

push-cons : (c : Char) (ps : List String) → (p : String) × (qs : List String) × (push c ps ≡ p ∷ qs)
push-cons c [] = (String.◌∷◌ c "", [], refl)
push-cons c (p ∷ ps) = (String.◌∷◌ c p, ps, refl)

-- A text has at least one part.
pub split_dots-cons : (s : String) → (p : String) × (qs : List String) × (split_dots s ≡ p ∷ qs)
unfolding split_dots
split_dots-cons String.[] = ("", [], refl)
split_dots-cons (String.◌∷◌ c s) = elim (Bool-cases (code c == b'.')) [
  | inl y ↦ ("", split_dots s, rw y refl)
  | inr n ↦ let (p, qs, e) = push-cons c (split_dots s) in (p, qs, rw n e)
]

split_dots_runs : split_dots "arguments.order.id" ≡ "arguments" ∷ "order" ∷ "id" ∷ []
unfolding split_dots
split_dots_runs = refl

split_dots_edges : split_dots ".a." ≡ "" ∷ "a" ∷ "" ∷ []
unfolding split_dots
split_dots_edges = refl

ends_with_runs : ends_with "x@demo-org.dev" "@demo-org.dev" ≡ true
unfolding ends_with
ends_with_runs = refl
