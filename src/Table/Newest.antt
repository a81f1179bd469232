-- ===== src/Table/Newest.antt =====
-- ORDER BY … DESC: what is true of the rows stays true of a page of them, and sorting keeps each row.
use mathlib.Core.List.{Perm}
use mathlib.Core.List.Perm
use betting_service.Prelude.{
  ℕ, zero, suc, ◌≡◌, ◌≤◌, ◌∙◌, ap, refl, Bool, true, leb, Bool-cases, inl, inr, List, [], ◌∷◌, map,
  take, drop, length, arith,
}
use betting_service.Table.{All, select_where, insert_newest, newest_first}

abbrev pub NotAfter {ℓ} : {A : Type ℓ} → (A → ℕ) → ℕ → A → Type 0
NotAfter key time b = key b ≤ time

-- Each row is at least as new as those that follow it.
abbrev pub Descending {ℓ} : {A : Type ℓ} → (A → ℕ) → List A → Type 0
Descending key [] = Unit
Descending key (b ∷ bs) = All (NotAfter key (key b)) bs × Descending key bs

module _ {ℓ κ} {A : Type ℓ} (P : A → Type κ) where
  pub All-take : (n : ℕ) (xs : List A) → All P xs → All P (take n xs)
  All-take zero xs h = tt
  All-take (suc n) [] h = tt
  All-take (suc n) (x ∷ xs) h = (h.0, All-take n xs h.1)

  pub All-drop : (n : ℕ) (xs : List A) → All P xs → All P (drop n xs)
  All-drop zero xs h = h
  All-drop (suc n) [] h = tt
  All-drop (suc n) (x ∷ xs) h = All-drop n xs h.1

  pub All-weaken : (Q : A → Type κ) → ((x : A) → P x → Q x) → (xs : List A) → All P xs → All Q xs
  All-weaken Q f [] h = tt
  All-weaken Q f (x ∷ xs) h = (f x h.0, All-weaken Q f xs h.1)

pub map-All {ℓ ℓ' κ} :
    {A : Type ℓ} {B : Type ℓ'} (P : B → Type κ) (f : A → B) (xs : List A)
    → All (λ x. P (f x)) xs
    → All P (map f xs)
map-All P f [] h = tt
map-All P f (x ∷ xs) h = (h.0, map-All P f xs h.1)

pub select-All {ℓ} :
    {A : Type ℓ} (p : A → Bool) (xs : List A) → All (λ x. p x ≡ true) (select_where p xs)
unfolding select_where
select-All p [] = tt
select-All p (x ∷ xs) = elim (Bool-cases (p x)) [
  | inl e ↦ rw e (e, select-All p xs)
  | inr e ↦ rw e (select-All p xs)
]

module _ {ℓ} {A : Type ℓ} (key : A → ℕ) where
  insert-All {κ} :
      (P : A → Type κ) (b : A) (bs : List A) → P b → All P bs → All P (insert_newest key b bs)
  unfolding insert_newest
  insert-All P b [] hb h = (hb, tt)
  insert-All P b (c ∷ cs) hb h = elim (Bool-cases (leb (key c) (key b))) [
    | inl e ↦ rw (e, insert_newest) (hb, h)
    | inr e ↦ rw (e, insert_newest) (h.0, insert-All P b cs hb h.1)
  ]

  pub newest_first-All {κ} : (P : A → Type κ) (bs : List A) → All P bs → All P (newest_first key bs)
  unfolding newest_first
  newest_first-All P [] h = tt
  newest_first-All P (b ∷ bs) h =
      insert-All P b (newest_first key bs) h.0 (newest_first-All P bs h.1)

  insert-Descending :
      (b : A) (bs : List A) → Descending key bs → Descending key (insert_newest key b bs)
  unfolding insert_newest
  insert-Descending b [] h = (tt, tt)
  insert-Descending b (c ∷ cs) h = elim (Bool-cases (leb (key c) (key b))) [
    | inl e ↦
        let le : (key c) ≤ (key b) = ground arith in
        let later =
          All-weaken (NotAfter key (key c)) (NotAfter key (key b))
            (λ x (hx : (key x) ≤ (key c)). omega arith) cs h.0 in
        rw (e, insert_newest) ((le, later), h)
    | inr e ↦
        rw (e, insert_newest)
          (insert-All (NotAfter key (key c)) b cs (ground arith) h.0, insert-Descending b cs h.1)
  ]

  pub newest_first-Descending : (bs : List A) → Descending key (newest_first key bs)
  unfolding newest_first
  newest_first-Descending [] = tt
  newest_first-Descending (b ∷ bs) =
      insert-Descending b (newest_first key bs) (newest_first-Descending bs)

  pub take-Descending : (n : ℕ) (bs : List A) → Descending key bs → Descending key (take n bs)
  take-Descending zero bs h = tt
  take-Descending (suc n) [] h = tt
  take-Descending (suc n) (b ∷ bs) h =
      (All-take (NotAfter key (key b)) n bs h.0, take-Descending n bs h.1)

  pub drop-Descending : (n : ℕ) (bs : List A) → Descending key bs → Descending key (drop n bs)
  drop-Descending zero bs h = h
  drop-Descending (suc n) [] h = tt
  drop-Descending (suc n) (b ∷ bs) h = drop-Descending n bs h.1

  insert-Perm : (b : A) (bs : List A) → Perm (insert_newest key b bs) (b ∷ bs)
  unfolding insert_newest
  insert-Perm b [] = Perm.refl (b ∷ [])
  insert-Perm b (c ∷ cs) = elim (Bool-cases (leb (key c) (key b))) [
    | inl e ↦ rw (e, insert_newest) (Perm.refl (b ∷ c ∷ cs))
    | inr e ↦ rw (e, insert_newest) (Perm.trans (Perm.cons c (insert-Perm b cs)) (Perm.swap b c cs))
  ]

  pub newest_first-Perm : (bs : List A) → Perm (newest_first key bs) bs
  unfolding newest_first
  newest_first-Perm [] = Perm.nil
  newest_first-Perm (b ∷ bs) =
      Perm.trans (insert-Perm b (newest_first key bs)) (Perm.cons b (newest_first-Perm bs))

  length-insert : (b : A) (bs : List A) → length (insert_newest key b bs) ≡ suc (length bs)
  unfolding insert_newest
  length-insert b [] = refl
  length-insert b (c ∷ cs) = elim (Bool-cases (leb (key c) (key b))) [
    | inl e ↦ rw (e, insert_newest) refl
    | inr e ↦ rw (e, insert_newest) (ap suc (length-insert b cs))
  ]

  pub length-newest_first : (bs : List A) → length (newest_first key bs) ≡ length bs
  unfolding newest_first
  length-newest_first [] = refl
  length-newest_first (b ∷ bs) =
      length-insert b (newest_first key bs) ∙ ap suc (length-newest_first bs)
