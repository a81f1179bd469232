-- ===== src/Table.antt =====
-- A database table as the list of its rows, and the SQL statements that the services send:
-- SELECT … WHERE, UPDATE … WHERE, DELETE … WHERE and COUNT … WHERE.
pub mod Rows
pub mod Newest
use betting_service.Prelude.{
  leb, ℕ, suc, ◌≡◌, refl, ◌≤◌, Bool, true, false, not, List, [], ◌∷◌, Option, none, some, ◌++◌,
  arith, if◌then◌else◌, Bool-cases, length,
}

module _ {ℓ} {A : Type ℓ} where
  unfoldable pub select_where : (A → Bool) → List A → List A
  select_where p [] = []
  select_where p (x ∷ xs) = if p x then x ∷ select_where p xs else select_where p xs

  unfoldable pub update_where : (A → Bool) → (A → A) → List A → List A
  update_where p f [] = []
  update_where p f (x ∷ xs) = (if p x then f x else x) ∷ update_where p f xs

  unfoldable pub delete_where : (A → Bool) → List A → List A
  delete_where p xs = select_where (λ x. not (p x)) xs

  unfoldable pub count_where : (A → Bool) → List A → ℕ
  count_where p [] = 0
  count_where p (x ∷ xs) = if p x then suc (count_where p xs) else count_where p xs

  unfoldable pub exists_where : (A → Bool) → List A → Bool
  exists_where p [] = false
  exists_where p (x ∷ xs) = if p x then true else exists_where p xs

  -- `findOne`
  unfoldable pub find_where : (A → Bool) → List A → Option A
  find_where p [] = none
  find_where p (x ∷ xs) = if p x then some x else find_where p xs

  -- ORDER BY `key` DESC
  unfoldable pub insert_newest : (A → ℕ) → A → List A → List A
  insert_newest key b [] = b ∷ []
  insert_newest key b (c ∷ cs) = elim (leb (key c) (key b)) [
    | true ↦ b ∷ c ∷ cs
    | false ↦ c ∷ insert_newest key b cs
  ]

  unfoldable pub newest_first : (A → ℕ) → List A → List A
  newest_first key [] = []
  newest_first key (b ∷ bs) = insert_newest key b (newest_first key bs)

  -- Every row.
  abbrev pub All {κ} : (A → Type κ) → List A → Type κ
  All P [] = Unit
  All P (x ∷ xs) = P x × All P xs
