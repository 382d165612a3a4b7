-- ===== src/Prelude/Perms.antt =====
-- What does not depend on the order of a list, and tests of lists against predicates.
use mathlib.Core.List.{Perm, Permᴰ}
use mathlib.Core.Logic.{∥∥₁_elim}
use phulax.Prelude.{
  Bool, true, false, List, [], ◌∷◌, ◌≡◌, refl, ◌∙◌, ap, inl, inr, arith, any, Bool-cases, All, Any,
}

Bool-is_set : IsSet Bool
Bool-is_set = hlevel

module _ {ℓ} {A : Type ℓ} where
  any-Permᴰ : (p : A → Bool) {xs ys : List A} → Permᴰ xs ys → any p xs ≡ any p ys
  any-Permᴰ p Permᴰ.nil = refl
  any-Permᴰ p (Permᴰ.cons {a} {b} e h) = cc (ap p e, any-Permᴰ p h)
  any-Permᴰ p (Permᴰ.swap {a} {b} {a'} {b'} e f) = ground (arith, ap p e, ap p f)
  any-Permᴰ p (Permᴰ.trans h k) = any-Permᴰ p h ∙ any-Permᴰ p k

  pub any-Perm : (p : A → Bool) {xs ys : List A} → Perm xs ys → any p xs ≡ any p ys
  any-Perm p h = ∥∥₁_elim h (Bool-is_set _ _) (any-Permᴰ p)

  pub any-Any : (p : A → Bool) (xs : List A) → any p xs ≡ true → Any (λ x. p x ≡ true) xs
  any-Any p [] h = cc
  any-Any p (x ∷ xs) h = elim (Bool-cases (p x)) [
    | inl y ↦ inl y
    | inr n ↦ inr (any-Any p xs (ground arith))
  ]

  pub any-All : (p : A → Bool) (xs : List A) → any p xs ≡ false → All (λ x. p x ≡ false) xs
  any-All p [] h = tt
  any-All p (x ∷ xs) h = (ground arith, any-All p xs (ground arith))

module _ {ℓ κ μ} {A : Type ℓ} where
  pub All-map :
      {P : A → Type κ} {Q : A → Type μ} (f : (a : A) → P a → Q a) (xs : List A)
      → All P xs
      → All Q xs
  All-map f [] h = tt
  All-map f (x ∷ xs) (h, hs) = (f x h, All-map f xs hs)

  pub Any-map :
      {P : A → Type κ} {Q : A → Type μ} (f : (a : A) → P a → Q a) (xs : List A)
      → Any P xs
      → Any Q xs
  Any-map f [] h = elim h [ ]
  Any-map f (x ∷ xs) (inl h) = inl (f x h)
  Any-map f (x ∷ xs) (inr h) = inr (Any-map f xs h)
