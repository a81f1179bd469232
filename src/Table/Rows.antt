-- ===== src/Table/Rows.antt =====
-- How the statements on a table act on its rows.
use betting_service.Prelude.{
  ◌&&◌, ◌++◌, ◌≢◌, ◌≡◌, refl, inl, inr, Bool, true, false, not, List, [], ◌∷◌, arith, Bool-cases,
  length, some, ap,
}
use betting_service.Table.{count_where, select_where, update_where, exists_where, All, find_where}

module _ {ℓ} {A : Type ℓ} where
  -- After an UPDATE that takes every row out of a later query, the query finds none.
  pub select-update_none :
      (p q : A → Bool) (f : A → A)
      → ((x : A) → p x ≡ true → q (f x) ≡ false)
      → ((x : A) → p x ≡ false → q x ≡ false)
      → (xs : List A) → select_where q (update_where p f xs) ≡ []
  unfolding select_where update_where
  select-update_none p q f hit miss [] = refl
  select-update_none p q f hit miss (x ∷ xs) =
      ground (arith, hit x, miss x, select-update_none p q f hit miss xs)

  -- An UPDATE with no matching row.
  pub update_where-none :
      (p : A → Bool) (f : A → A) (xs : List A)
      → exists_where p xs ≡ false
      → update_where p f xs ≡ xs
  unfolding exists_where update_where
  update_where-none p f [] h = refl
  update_where-none p f (x ∷ xs) h = ground (arith, update_where-none p f xs)

  pub exists-update_none :
      (p q : A → Bool) (f : A → A)
      → ((x : A) → p x ≡ true → q (f x) ≡ false)
      → ((x : A) → p x ≡ false → q x ≡ false)
      → (xs : List A) → exists_where q (update_where p f xs) ≡ false
  unfolding exists_where update_where
  exists-update_none p q f hit miss [] = refl
  exists-update_none p q f hit miss (x ∷ xs) =
      ground (arith, hit x, miss x, exists-update_none p q f hit miss xs)

  -- An UPDATE keeps what holds of every row, if it keeps it of the rows that it matches.
  pub update-All {κ} :
      (P : A → Type κ) (p : A → Bool) (f : A → A)
      → ((x : A) → p x ≡ true → P x → P (f x))
      → (xs : List A) → All P xs
      → All P (update_where p f xs)
  unfolding update_where
  update-All P p f keep [] h = tt
  update-All P p f keep (x ∷ xs) h = (
    elim (Bool-cases (p x)) [ inl e ↦ rw e (keep x e h.0) | inr e ↦ rw e h.0 ],
    update-All P p f keep xs h.1,
  )

  -- The rows that an UPDATE does not match are those that they were, in their order.
  pub select-update_other :
      (p : A → Bool) (f : A → A)
      → ((x : A) → p x ≡ true → p (f x) ≡ true)
      → (xs : List A)
      → select_where (λ x. not (p x)) (update_where p f xs) ≡ select_where (λ x. not (p x)) xs
  unfolding select_where update_where
  select-update_other p f keep [] = refl
  select-update_other p f keep (x ∷ xs) = ground (arith, keep x, select-update_other p f keep xs)

  pub length-update :
      (p : A → Bool) (f : A → A) (xs : List A) → length (update_where p f xs) ≡ length xs
  unfolding update_where
  length-update p f [] = refl
  length-update p f (x ∷ xs) = omega (arith, length-update p f xs)

  -- The first row that a SELECT finds meets its condition.
  pub select-head :
      (p : A → Bool) (xs : List A) (y : A) (ys : List A) → select_where p xs ≡ y ∷ ys → p y ≡ true
  unfolding select_where
  select-head p [] y ys h = cc
  select-head p (x ∷ xs) y ys h = elim (Bool-cases (p x)) [
    | inl e ↦ ground (arith, e)
    | inr e ↦ select-head p xs y ys (rw e at h)
  ]

  -- The row that is found after an UPDATE with the same condition is the row found before, written.
  pub find-update :
      (p : A → Bool) (f : A → A)
      → ((x : A) → p x ≡ true → p (f x) ≡ true)
      → (xs : List A) (y : A) → find_where p xs ≡ some y
      → find_where p (update_where p f xs) ≡ some (f y)
  unfolding find_where update_where
  find-update p f keep [] y h = cc
  find-update p f keep (x ∷ xs) y h = ground (arith, keep x, find-update p f keep xs y)

  pub exists-weaken :
      (p q : A → Bool)
      → ((x : A) → p x ≡ false → q x ≡ false)
      → (xs : List A) → exists_where p xs ≡ false
      → exists_where q xs ≡ false
  unfolding exists_where
  exists-weaken p q h [] e = refl
  exists-weaken p q h (x ∷ xs) e = ground (arith, h x, exists-weaken p q h xs)

  -- An UPDATE whose SELECT is empty writes nothing.
  pub update-unselected :
      (p : A → Bool) (f : A → A) (xs : List A) → select_where p xs ≡ [] → update_where p f xs ≡ xs
  unfolding select_where update_where
  update-unselected p f [] e = refl
  update-unselected p f (x ∷ xs) e = ground (arith, update-unselected p f xs)

  -- An UPDATE of columns that a condition does not read.
  pub exists-update_same :
      (p q : A → Bool) (f : A → A)
      → ((x : A) → p (f x) ≡ p x)
      → (xs : List A) → exists_where p (update_where q f xs) ≡ exists_where p xs
  unfolding exists_where update_where
  exists-update_same p q f same [] = refl
  exists-update_same p q f same (x ∷ xs) = ground (arith, same x, exists-update_same p q f same xs)

  pub select-exists :
      (p : A → Bool) (xs : List A) → exists_where p xs ≡ true → select_where p xs ≢ []
  unfolding exists_where select_where
  select-exists p [] h e = cc
  select-exists p (x ∷ xs) h e = ground (arith, select-exists p xs)

  pub exists-find :
      (p : A → Bool) (xs : List A) → exists_where p xs ≡ true → (x : A) × (find_where p xs ≡ some x)
  unfolding exists_where find_where
  exists-find p [] h = cc
  exists-find p (x ∷ xs) h = elim (Bool-cases (p x)) [
    | inl e ↦ rw e (x, refl)
    | inr e ↦ rw e (exists-find p xs (rw e at h))
  ]

  -- What an UPDATE makes true of the rows that it writes is true of the row found by its condition.
  pub find-updated :
      (p q : A → Bool) (f : A → A)
      → ((x : A) → p x ≡ true → q (f x) ≡ true)
      → (xs : List A) (y : A) → find_where p (update_where p f xs) ≡ some y
      → q y ≡ true
  unfolding find_where update_where
  find-updated p q f hit [] y h = cc
  find-updated p q f hit (x ∷ xs) y h = ground (arith, hit x, find-updated p q f hit xs y)

  pub All-append {κ} :
      (P : A → Type κ) (xs : List A) (y : A) → All P xs → P y → All P (xs ++ y ∷ [])
  All-append P [] y h hy = (hy, tt)
  All-append P (x ∷ xs) y h hy = (h.0, All-append P xs y h.1 hy)

  -- The row that `findOne` finds is the first that `find` does.
  pub select-find :
      (p : A → Bool) (xs : List A) (y : A)
      → find_where p xs ≡ some y
      → (ys : List A) × (select_where p xs ≡ y ∷ ys)
  unfolding find_where select_where
  select-find p [] y h = cc
  select-find p (x ∷ xs) y h = elim (Bool-cases (p x)) [
    | inl e ↦
        let g : x ≡ y = cc (rw e at h) in
        rw e (select_where p xs, ap (λ z. z ∷ select_where p xs) g)
    | inr e ↦ rw e (select-find p xs y (rw e at h))
  ]

  -- A row that was inserted last.
  pub find-append_last :
      (p : A → Bool) (xs : List A) (y : A)
      → exists_where p xs ≡ false
      → p y ≡ true
      → find_where p (xs ++ y ∷ []) ≡ some y
  unfolding find_where exists_where
  find-append_last p [] y h hy = rw hy refl
  find-append_last p (x ∷ xs) y h hy = ground (arith, find-append_last p xs y)

  pub find-append_other :
      (p : A → Bool) (xs : List A) (y : A)
      → p y ≡ false
      → find_where p (xs ++ y ∷ []) ≡ find_where p xs
  unfolding find_where
  find-append_other p [] y hy = rw hy refl
  find-append_other p (x ∷ xs) y hy = ground (arith, find-append_other p xs y)

  pub exists-append_last :
      (p : A → Bool) (xs : List A) (y : A) → p y ≡ true → exists_where p (xs ++ y ∷ []) ≡ true
  unfolding exists_where
  exists-append_last p [] y hy = rw hy refl
  exists-append_last p (x ∷ xs) y hy = ground (arith, exists-append_last p xs y)

  pub count-length : (p : A → Bool) (xs : List A) → count_where p xs ≡ length (select_where p xs)
  unfolding count_where select_where
  count-length p [] = refl
  count-length p (x ∷ xs) = ground (arith, count-length p xs)

  -- No row of a selection that is empty is counted.
  pub count-none :
      (p q : A → Bool) (xs : List A)
      → exists_where q (select_where p xs) ≡ false
      → count_where (λ x. p x && q x) xs ≡ 0
  unfolding count_where select_where exists_where
  count-none p q [] h = refl
  count-none p q (x ∷ xs) h = elim (Bool-cases (p x)) [
    | inr e ↦ rw e (count-none p q xs (rw e at h))
    | inl e ↦ elim (Bool-cases (q x)) [
      | inl f ↦ absurd (cc (rw (e, f) at h))
      | inr f ↦ rw (e, f) (count-none p q xs (rw (e, f) at h))
    ]
  ]
