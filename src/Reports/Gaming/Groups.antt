-- ===== src/Reports/Gaming/Groups.antt =====
-- The groups of `gamingActivity` of src/bets/report.service.ts.
use mathlib.Core.Option.{some-injective}
use betting_service.Prelude.{
  subst, ℕ, suc, ◌==◌, ◌≡◌, ◌+◌, ◌||◌, if◌then◌else◌, refl, ap, ◌∙◌, Bool, false, Bool-cases, inl,
  inr, List, [], ◌∷◌, map, length, Option, none, some, arith,
}
use betting_service.Floats.{Floats}
use betting_service.Entity.Bet.{Bet}
use betting_service.Store.{Store, Result}
use betting_service.Table.{count_where}
use betting_service.Reports.Gaming.Wanted.{Selects, activity_rows-Selects}
use betting_service.Reports.Gaming.{
  activity_report, Group, Activity, ActivityReport, ActivityRequest, Sql, ProductType, sports,
  virtual, other_type, add_row, group_by, activity_of, activity_with, activity_rows, activity_for,
  gaming_activity, users_of, key_of,
}

module _ {A : Type 0} where
  -- The number of the rows in the group of a key, which is 0 if there is none.
  abbrev rows_at : ℕ → List (Group A) → ℕ
  rows_at j [] = 0
  rows_at j (g ∷ gs) = if j == g.key then length g.rows else rows_at j gs

  abbrev has_key : ℕ → List (Group A) → Bool
  has_key j [] = false
  has_key j (g ∷ gs) = (j == g.key) || has_key j gs

  abbrev DistinctKeys : List (Group A) → Type 0
  DistinctKeys [] = Unit
  DistinctKeys (g ∷ gs) = (has_key g.key gs ≡ false) × DistinctKeys gs

  abbrev all_rows : List (Group A) → ℕ
  all_rows [] = 0
  all_rows (g ∷ gs) = length g.rows + all_rows gs

  all_rows-add_row :
      (k : ℕ) (x : A) (gs : List (Group A)) → all_rows (add_row k x gs) ≡ suc (all_rows gs)
  unfolding add_row
  all_rows-add_row k x [] = refl
  all_rows-add_row k x (g ∷ gs) = ground (arith, all_rows-add_row k x gs)

  rows_at-add_row :
      (j k : ℕ) (x : A) (gs : List (Group A))
      → rows_at j (add_row k x gs) ≡ (if k == j then suc (rows_at j gs) else rows_at j gs)
  unfolding add_row
  rows_at-add_row j k x [] = ground arith
  rows_at-add_row j k x (g ∷ gs) = ground (arith, rows_at-add_row j k x gs)

  has_key-add_row :
      (j k : ℕ) (x : A) (gs : List (Group A))
      → has_key j (add_row k x gs) ≡ (j == k) || has_key j gs
  unfolding add_row
  has_key-add_row j k x [] = refl
  has_key-add_row j k x (g ∷ gs) = ground (arith, has_key-add_row j k x gs)

  add_row-DistinctKeys :
      (k : ℕ) (x : A) (gs : List (Group A)) → DistinctKeys gs → DistinctKeys (add_row k x gs)
  unfolding add_row
  add_row-DistinctKeys k x [] h = (refl, tt)
  add_row-DistinctKeys k x (g ∷ gs) h = elim (Bool-cases (k == g.key)) [
    | inl e ↦ rw (e, add_row) h
    | inr e ↦
        rw (e, add_row)
          (ground (arith, has_key-add_row g.key k x gs, h.0), add_row-DistinctKeys k x gs h.1)
  ]

  all_rows-group_by : (key : A → ℕ) (xs : List A) → all_rows (group_by key xs) ≡ length xs
  unfolding group_by
  all_rows-group_by key [] = refl
  all_rows-group_by key (x ∷ xs) =
      all_rows-add_row (key x) x (group_by key xs) ∙ ap suc (all_rows-group_by key xs)

  rows_at-group_by :
      (key : A → ℕ) (j : ℕ) (xs : List A)
      → rows_at j (group_by key xs) ≡ count_where (λ x. key x == j) xs
  unfolding group_by count_where
  rows_at-group_by key j [] = refl
  rows_at-group_by key j (x ∷ xs) =
      ground (arith, rows_at-add_row j (key x) x (group_by key xs), rows_at-group_by key j xs)

  group_by-DistinctKeys : (key : A → ℕ) (xs : List A) → DistinctKeys (group_by key xs)
  unfolding group_by
  group_by-DistinctKeys key [] = tt
  group_by-DistinctKeys key (x ∷ xs) =
      add_row-DistinctKeys (key x) x (group_by key xs) (group_by-DistinctKeys key xs)

module _ {N : Type 0} where
  -- The number of tickets in the row of a key, which is 0 if there is none.
  abbrev pub tickets_at : ℕ → List (Activity N) → ℕ
  tickets_at j [] = 0
  tickets_at j (a ∷ rows) = if j == a.key then a.total else tickets_at j rows

  abbrev pub is_key : ℕ → List (Activity N) → Bool
  is_key j [] = false
  is_key j (a ∷ rows) = (j == a.key) || is_key j rows

  -- No two rows have the same key.
  abbrev pub OneEach : List (Activity N) → Type 0
  OneEach [] = Unit
  OneEach (a ∷ rows) = (is_key a.key rows ≡ false) × OneEach rows

  abbrev pub all_tickets : List (Activity N) → ℕ
  all_tickets [] = 0
  all_tickets (a ∷ rows) = a.total + all_tickets rows

  module _ (floats : Floats N) (product : ProductType) (s : Store N) where
    abbrev shown : List (Group (Bet N)) → List (Activity N)
    shown gs = map (activity_of floats product s) gs

    tickets_at-shown : (j : ℕ) (gs : List (Group (Bet N))) → tickets_at j (shown gs) ≡ rows_at j gs
    unfolding activity_of
    tickets_at-shown j [] = refl
    tickets_at-shown j (g ∷ gs) = ground (arith, tickets_at-shown j gs)

    all_tickets-shown : (gs : List (Group (Bet N))) → all_tickets (shown gs) ≡ all_rows gs
    unfolding activity_of
    all_tickets-shown [] = refl
    all_tickets-shown (g ∷ gs) = ap (λ n. length g.rows + n) (all_tickets-shown gs)

    is_key-shown : (j : ℕ) (gs : List (Group (Bet N))) → is_key j (shown gs) ≡ has_key j gs
    unfolding activity_of
    is_key-shown j [] = refl
    is_key-shown j (g ∷ gs) = ap (λ b. (j == g.key) || b) (is_key-shown j gs)

    shown-OneEach : (gs : List (Group (Bet N))) → DistinctKeys gs → OneEach (shown gs)
    unfolding activity_of
    shown-OneEach [] h = tt
    shown-OneEach (g ∷ gs) h = (is_key-shown g.key gs ∙ h.0, shown-OneEach gs h.1)

  -- What a report says of the rows that it is made of: no key is there twice, a key has as many tickets
  -- as rows have it, and all keys together as many as there are.
  abbrev pub Partitions : (Bet N → ℕ) → List (Bet N) → ActivityReport N → Type 0
  Partitions key rows r =
      OneEach r.bets
      × ((j : ℕ) → tickets_at j r.bets ≡ count_where (λ b. key b == j) rows)
      × (all_tickets r.bets ≡ r.total_tickets)
      × (r.total_tickets ≡ length rows)

  activity_with-Partitions :
      (floats : Floats N) (product : ProductType) (s : Store N) (rows : List (Bet N))
      (o : Option (Bet N → ℕ)) (r : ActivityReport N)
      → activity_with floats product s rows o ≡ some r
      → (key : Bet N → ℕ) × (o ≡ some key) × Partitions key rows r
  unfolding activity_with activity_report
  activity_with-Partitions floats product s rows none r h = absurd (cc h)
  activity_with-Partitions floats product s rows (some key) r h =
      let gs = group_by key rows in
      let e = some-injective _ _ h in
      (
        key,
        refl,
        subst (Partitions key rows) e (
          shown-OneEach floats product s gs (group_by-DistinctKeys key rows),
          λ j. tickets_at-shown floats product s j gs ∙ rows_at-group_by key j rows,
          all_tickets-shown floats product s gs ∙ all_rows-group_by key rows,
          refl,
        ),
      )

  -- A report of `gamingActivity` divides its rows by the value that it groups by: no value is there
  -- twice, each has as many tickets as there are rows with it, and together they have all the tickets
  -- that the report counts. The rows are those of the bets that the request asks for: not booked, of the
  -- client, in its two times, neither cancelled nor voided, and of the name, bet type, source, event
  -- type, kind of display and users that it names.
  pub gaming_activity-Partitions :
      (floats : Floats N) (sql : Sql N) (identity : Result (Option (List ℕ))) (q : ActivityRequest)
      (s : Store N) (r : ActivityReport N)
      → gaming_activity floats sql identity q s ≡ some r
      → (users : Option (List ℕ)) × (key : Bet N → ℕ) × (users_of q.user_id identity ≡ some users)
        × (key_of sql q.group_by ≡ some key)
        × Partitions key (activity_rows q users s) r
        × Selects q users s.bets (activity_rows q users s)
  unfolding gaming_activity
  gaming_activity-Partitions floats sql identity q s r h =
      for_product q.product_type (users_of q.user_id identity) h
    where
      for_users :
          (product : ProductType) (users : Option (List ℕ))
          → activity_with floats product s (activity_rows q users s) (key_of sql q.group_by)
            ≡ some r
          → (vs : Option (List ℕ)) × (key : Bet N → ℕ) × (some users ≡ some vs)
            × (key_of sql q.group_by ≡ some key)
            × Partitions key (activity_rows q vs s) r
            × Selects q vs s.bets (activity_rows q vs s)
      for_users product users e =
          let (key, found, parts) =
            activity_with-Partitions floats product s (activity_rows q users s)
              (key_of sql q.group_by) r e in
          (users, key, refl, found, parts, activity_rows-Selects q users s)

      for_product :
          (product : ProductType) (o : Option (Option (List ℕ)))
          → activity_for floats sql q s product o ≡ some r
          → (users : Option (List ℕ)) × (key : Bet N → ℕ) × (o ≡ some users)
            × (key_of sql q.group_by ≡ some key)
            × Partitions key (activity_rows q users s) r
            × Selects q users s.bets (activity_rows q users s)
      for_product product none e = absurd (cc e)
      for_product sports (some users) e = for_users sports users e
      for_product virtual (some users) e = absurd (cc e)
      for_product other_type (some users) e = for_users other_type users e
