-- ===== src/ControlPlane/Tables.antt =====
-- What the SQL statements of the program do with a table, which is the list of its rows in the
-- order of their insertion.
pub mod Laws
use phulax.Prelude.{
  ℕ, ◌+◌, ◌==◌, String, str_eq, Bool, true, Option, none, some, List, [], ◌∷◌, if◌then◌else◌,
}

module _ {ℓ} {A : Type ℓ} where
  -- `SELECT ... WHERE p`, the first row.
  unfoldable pub find : (A → Bool) → List A → Option A
  find p [] = none
  find p (x ∷ xs) = if p x then some x else find p xs

  -- `SELECT ... WHERE p ORDER BY created_at DESC LIMIT 1`: the row that was inserted last.
  unfoldable pub find_last : (A → Bool) → List A → Option A
  find_last p [] = none
  find_last p (x ∷ xs) = elim (find_last p xs) [
    | none ↦ if p x then some x else none
    | some y ↦ some y
  ]

  -- `UPDATE ... SET f WHERE p`
  unfoldable pub update_where : (A → Bool) → (A → A) → List A → List A
  update_where p f [] = []
  update_where p f (x ∷ xs) = (if p x then f x else x) ∷ update_where p f xs

  -- The rows that the statement changes: `rowcount`, and what `RETURNING` ranges over.
  unfoldable pub count_where : (A → Bool) → List A → ℕ
  count_where p [] = 0
  count_where p (x ∷ xs) = (if p x then 1 else 0) + count_where p xs

-- `if x is not None: query = query.where(column == x)`
abbrev pub id_filter : Option ℕ → ℕ → Bool
id_filter none id = true
id_filter (some x) id = id == x

abbrev pub text_filter : Option String → String → Bool
text_filter none s = true
text_filter (some x) s = str_eq s x
