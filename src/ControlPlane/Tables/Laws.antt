-- ===== src/ControlPlane/Tables/Laws.antt =====
-- The laws of the statements.
use mathlib.Core.Option
use mathlib.Core.Option.{some-injective}
use phulax.Prelude.{
  any, ◌+◌, ◌≤◌, ◌<◌, Bool, true, false, none, some, List, [], ◌∷◌, ◌++◌, ◌≡◌, refl, ◌∙◌, ap, inl,
  inr, arith, if◌then◌else◌, Bool-cases, Option-cases,
}
use phulax.ControlPlane.Tables.{find, find_last, update_where, count_where}

module _ {ℓ} {A : Type ℓ} where
  pub count-append :
      (p : A → Bool) (xs ys : List A)
      → count_where p (xs ++ ys) ≡ count_where p xs + count_where p ys
  unfolding count_where
  count-append p [] ys = omega arith
  count-append p (x ∷ xs) ys = omega (arith, count-append p xs ys)

  -- An update after which no row meets `q` any more.
  pub count-update_none :
      (p q : A → Bool) (f : A → A) (xs : List A)
      → ((x : A) → q (if p x then f x else x) ≡ false)
      → count_where q (update_where p f xs) ≡ 0
  unfolding count_where update_where
  count-update_none p q f [] h = refl
  count-update_none p q f (x ∷ xs) h = ground (arith, h x, count-update_none p q f xs h)

  -- An update that keeps the truth of `q`.
  pub count-update_same :
      (p q : A → Bool) (f : A → A) (xs : List A)
      → ((x : A) → q (if p x then f x else x) ≡ q x)
      → count_where q (update_where p f xs) ≡ count_where q xs
  unfolding count_where update_where
  count-update_same p q f [] h = refl
  count-update_same p q f (x ∷ xs) h = ground (arith, h x, count-update_same p q f xs h)

  -- An update that makes `q` true of no further row.
  pub count-update_le :
      (p q : A → Bool) (f : A → A) (xs : List A)
      → ((x : A) → q x ≡ false → q (if p x then f x else x) ≡ false)
      → count_where q (update_where p f xs) ≤ count_where q xs
  unfolding count_where update_where
  count-update_le p q f [] h = omega arith
  count-update_le p q f (x ∷ xs) h = ground (arith, h x, count-update_le p q f xs h)

  -- An update of no row changes nothing.
  pub update-none :
      (p : A → Bool) (f : A → A) (xs : List A) → count_where p xs ≡ 0 → update_where p f xs ≡ xs
  unfolding count_where update_where
  update-none p f [] h = refl
  update-none p f (x ∷ xs) h = ground (arith, update-none p f xs)

  pub find-some : (p : A → Bool) (xs : List A) (x : A) → find p xs ≡ some x → p x ≡ true
  unfolding find
  find-some p [] x h = cc
  find-some p (y ∷ xs) x h = elim (Bool-cases (p y)) [
    | inl t ↦ ground arith
    | inr n ↦ find-some p xs x (ground arith)
  ]

  pub find-count : (p : A → Bool) (xs : List A) (x : A) → find p xs ≡ some x → 0 < count_where p xs
  unfolding find count_where
  find-count p [] x h = cc
  find-count p (y ∷ xs) x h = ground (arith, find-count p xs x)

  pub find-none_count : (p : A → Bool) (xs : List A) → find p xs ≡ none → count_where p xs ≡ 0
  unfolding find count_where
  find-none_count p [] h = refl
  find-none_count p (y ∷ xs) h = ground (arith, find-none_count p xs)

  -- `p` is the stronger test.
  pub count-le :
      (p q : A → Bool) (xs : List A)
      → ((x : A) → p x ≡ true → q x ≡ true)
      → count_where p xs ≤ count_where q xs
  unfolding count_where
  count-le p q [] h = omega arith
  count-le p q (x ∷ xs) h = ground (arith, h x, count-le p q xs h)

  -- Some row that `find` returns meets `q`.
  pub find-count_pos :
      (p q : A → Bool) (xs : List A) (e : A)
      → find p xs ≡ some e
      → q e ≡ true
      → 0 < count_where q xs
  unfolding find count_where
  find-count_pos p q [] e h t = cc
  find-count_pos p q (x ∷ xs) e h t = elim (Bool-cases (p x)) [
    | inl y ↦ ground (arith, ap q (some-injective x e (ground arith)))
    | inr n ↦ ground (arith, find-count_pos p q xs e)
  ]

  -- The only row that meets `q` is found by `q`.
  pub find_unique :
      (p q : A → Bool) (xs : List A) (e : A)
      → find p xs ≡ some e
      → q e ≡ true
      → count_where q xs ≤ 1
      → find q xs ≡ some e
  unfolding find count_where
  find_unique p q [] e h t u = cc
  find_unique p q (x ∷ xs) e h t u = elim (Bool-cases (p x)) [
    | inl y ↦ ground (arith, ap q (some-injective x e (ground arith)))
    | inr n ↦ elim (Bool-cases (q x)) [
      | inl z ↦ absurd (ground (arith, find-count_pos p q xs e))
      | inr m ↦ ground (arith, find_unique p q xs e)
    ]
  ]

  -- What is found after an update that keeps `q`.
  pub find-update :
      (p q : A → Bool) (f : A → A) (xs : List A)
      → ((x : A) → q (if p x then f x else x) ≡ q x)
      → find q (update_where p f xs) ≡ Option.map (λ x. if p x then f x else x) (find q xs)
  unfolding find update_where
  find-update p q f [] h = refl
  find-update p q f (x ∷ xs) h = elim (Bool-cases (q x)) [
    | inl y ↦ rw (h x ∙ y, y)
    | inr n ↦ rw (h x ∙ n, n) (find-update p q f xs h)
  ]

  pub find-append :
      (p : A → Bool) (xs ys : List A) → find p xs ≡ none → find p (xs ++ ys) ≡ find p ys
  unfolding find
  find-append p [] ys h = refl
  find-append p (x ∷ xs) ys h = ground (arith, find-append p xs ys)

  pub count-none-find : (p : A → Bool) (xs : List A) → count_where p xs ≡ 0 → find p xs ≡ none
  unfolding find count_where
  count-none-find p [] h = refl
  count-none-find p (x ∷ xs) h = ground (arith, count-none-find p xs)

  pub update-append :
      (p : A → Bool) (f : A → A) (xs ys : List A)
      → update_where p f (xs ++ ys) ≡ update_where p f xs ++ update_where p f ys
  unfolding update_where
  update-append p f [] ys = refl
  update-append p f (x ∷ xs) ys = ap (λ zs. (if p x then f x else x) ∷ zs) (update-append p f xs ys)

  pub find-append_some :
      (p : A → Bool) (xs ys : List A) (x : A) → find p xs ≡ some x → find p (xs ++ ys) ≡ some x
  unfolding find
  find-append_some p [] ys x h = cc
  find-append_some p (y ∷ xs) ys x h = ground (arith, find-append_some p xs ys x)

  -- Where no row meets `c`, an update leaves none that meets `q`.
  pub count-update_from :
      (p c q : A → Bool) (f : A → A) (xs : List A)
      → ((x : A) → c x ≡ false → q (if p x then f x else x) ≡ false)
      → count_where c xs ≡ 0
      → count_where q (update_where p f xs) ≡ 0
  unfolding count_where update_where
  count-update_from p c q f [] h z = refl
  count-update_from p c q f (x ∷ xs) h z = ground (arith, h x, count-update_from p c q f xs h)

  pub count-both_zero :
      (p q r : A → Bool) (xs : List A)
      → ((x : A) → p x ≡ false → q x ≡ false → r x ≡ false)
      → count_where p xs ≡ 0
      → count_where q xs ≡ 0
      → count_where r xs ≡ 0
  unfolding count_where
  count-both_zero p q r [] h y z = refl
  count-both_zero p q r (x ∷ xs) h y z = ground (arith, h x, count-both_zero p q r xs h)

  pub any-find : (p : A → Bool) (xs : List A) (x : A) → find p xs ≡ some x → any p xs ≡ true
  unfolding find
  any-find p [] x h = cc
  any-find p (y ∷ xs) x h = ground (arith, any-find p xs x)

  pub any-find-none : (p : A → Bool) (xs : List A) → find p xs ≡ none → any p xs ≡ false
  unfolding find
  any-find-none p [] h = refl
  any-find-none p (y ∷ xs) h = ground (arith, any-find-none p xs)

  -- A row that `find_last` returns meets another test that it passes.
  pub any-find_last :
      (p q : A → Bool) (xs : List A) (x : A)
      → find_last p xs ≡ some x
      → q x ≡ true
      → any q xs ≡ true
  unfolding find_last
  any-find_last p q [] x h t = cc
  any-find_last p q (y ∷ xs) x h t = elim (Option-cases (find_last p xs)) [
    | inl e ↦ ground arith
    | inr (z, e) ↦ ground (arith, any-find_last p q xs z)
  ]

  -- An update that keeps a test.
  pub any-update :
      (q p : A → Bool) (f : A → A) (xs : List A)
      → ((x : A) → q (f x) ≡ q x)
      → any q (update_where p f xs) ≡ any q xs
  unfolding update_where
  any-update q p f [] same = refl
  any-update q p f (x ∷ xs) same = ground (arith, same x, any-update q p f xs same)

  pub find-any : (p : A → Bool) (xs : List A) → any p xs ≡ true → (x : A) × (find p xs ≡ some x)
  unfolding find
  find-any p [] h = cc
  find-any p (x ∷ xs) h = elim (Bool-cases (p x)) [
    | inl y ↦ (x, ground arith)
    | inr n ↦ let (z, e) = find-any p xs (ground arith) in (z, ground arith)
  ]
