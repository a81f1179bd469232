-- ===== src/Reports/Sales/Cashier.antt =====
-- The sales of a cashier and of a shop: src/bets/report.service.ts and src/bets/retail.service.ts.
use betting_service.Prelude.{
  leb, ◌∙◌, ==_sound, ℕ, ◌==◌, ◌≡◌, ◌+◌, refl, ap, Bool, true, false, ◌&&◌, ◌||◌, List, [], ◌∷◌,
  some, arith,
}
use betting_service.Int.{◌=ℤ◌, bet_pending, bet_won, bet_lost}
use betting_service.Entity.Bet.{Bet}
use betting_service.Entity.Games.{VirtualBet}
use betting_service.Floats.{Floats}
use betting_service.Store.{Store, ok}
use betting_service.Table.{select_where, count_where}
use betting_service.Reports.Games.{is_among, fetch_user_ids}
use betting_service.Reports.Sales.{
  Sales, sport_sales, virtual_sales, SalesRequest, sales_report, sales_as, cashier, shop, sold_by,
  shop_of, get_shop_user_report, report,
}

-- The IN of one user is the test for that user.
is_among_one : (u x : ℕ) → is_among (u ∷ []) x ≡ (x == u)
is_among_one u x = ground arith

-- No user is there twice.
abbrev pub Distinct : List ℕ → Type 0
Distinct [] = Unit
Distinct (u ∷ us) = (is_among us u ≡ false) × Distinct us

-- The sum of a number over the users.
abbrev pub total_over : (ℕ → ℕ) → List ℕ → ℕ
total_over f [] = 0
total_over f (u ∷ us) = f u + total_over f us

module _ {A : Type 0} (c p : A → Bool) (user : A → ℕ) where
  abbrev sold_to : (ℕ → Bool) → List A → ℕ
  sold_to f rows = count_where c (select_where (λ x. p x && f (user x)) rows)

  sold_to_nobody : (rows : List A) → sold_to (is_among []) rows ≡ 0
  unfolding count_where select_where
  sold_to_nobody [] = refl
  sold_to_nobody (x ∷ xs) = ground (arith, sold_to_nobody xs)

  other_user :
      (u : ℕ) (us : List ℕ) (x : ℕ)
      → is_among us u ≡ false
      → (x == u) ≡ true
      → is_among us x ≡ false
  other_user u us x fresh e = rw (==_sound x u e) fresh

  sold_to_either :
      (u : ℕ) (us : List ℕ)
      → is_among us u ≡ false
      → (rows : List A)
      → sold_to (is_among (u ∷ us)) rows ≡ sold_to (λ x. x == u) rows + sold_to (is_among us) rows
  unfolding count_where select_where
  sold_to_either u us fresh [] = refl
  sold_to_either u us fresh (x ∷ xs) =
      ground (arith, other_user u us (user x) fresh, sold_to_either u us fresh xs)

  sold_to-total :
      (us : List ℕ) (rows : List A)
      → Distinct us
      → sold_to (is_among us) rows ≡ total_over (λ u. sold_to (λ x. x == u) rows) us
  sold_to-total [] rows h = sold_to_nobody rows
  sold_to-total (u ∷ us) rows h =
      omega (arith, sold_to_either u us h.0 rows, sold_to-total us rows h.1)

total_over-add :
    (f g : ℕ → ℕ) (us : List ℕ) → total_over f us + total_over g us ≡ total_over (λ u. f u + g u) us
total_over-add f g [] = refl
total_over-add f g (u ∷ us) = omega (arith, total_over-add f g us)

-- The rows of two tables together.
sold_to-both :
    {A B : Type 0} (c p : A → Bool) (user : A → ℕ) (rows : List A) (d q : B → Bool) (buyer : B → ℕ)
    (others : List B) (us : List ℕ)
    → Distinct us
    → sold_to c p user (is_among us) rows + sold_to d q buyer (is_among us) others
      ≡ total_over
          (λ u. sold_to c p user (λ x. x == u) rows + sold_to d q buyer (λ x. x == u) others)
          us
sold_to-both c p user rows d q buyer others us h =
    (λ i. sold_to-total c p user us rows h i + sold_to-total d q buyer us others h i)
    ∙ total_over-add (λ u. sold_to c p user (λ x. x == u) rows)
        (λ u. sold_to d q buyer (λ x. x == u) others) us

module _ {N : Type 0} (floats : Floats N) (midnight : ℕ → ℕ) (q : SalesRequest) (s : Store N) where
  sold_by-same :
      (f g : ℕ → Bool)
      → ((x : ℕ) → f x ≡ g x)
      → sold_by floats midnight q f s ≡ sold_by floats midnight q g s
  sold_by-same f g same = λ i. sold_by floats midnight q (λ x. same x i) s

  -- The report of a shop whose one user is the cashier is the report of that cashier.
  pub sales_report-cashier :
      sales_report floats midnight (ok (some (q.user_id ∷ []))) (record q { role = shop }) s
      ≡ sales_report floats midnight (ok (some (q.user_id ∷ []))) (record q { role = cashier }) s
  unfolding sales_report sales_as get_shop_user_report shop_of fetch_user_ids sold_by
  sales_report-cashier =
      ap report
        (sold_by-same (is_among (q.user_id ∷ [])) (λ x. x == q.user_id) (is_among_one q.user_id))

  abbrev pub of_shop : List ℕ → Sales N
  of_shop us = (shop_of floats midnight q s us).grand_total

  abbrev pub of_cashier : ℕ → Sales N
  of_cashier u = (sold_by floats midnight q (λ x. x == u) s).grand_total

  -- Where no user is there twice, the bets, the running bets and the settled bets in the grand total of
  -- a shop are, in number, those in the grand totals of its users together.
  pub get_shop_user_report-total :
      (us : List ℕ)
      → Distinct us
      → ((of_shop us).no_of_bets ≡ total_over (λ u. (of_cashier u).no_of_bets) us)
        × ((of_shop us).running_bets ≡ total_over (λ u. (of_cashier u).running_bets) us)
        × ((of_shop us).settled_bets ≡ total_over (λ u. (of_cashier u).settled_bets) us)
  unfolding shop_of sold_by sport_sales virtual_sales
  get_shop_user_report-total [] h = (refl, refl, refl)
  get_shop_user_report-total (u ∷ us) h =
      let in_time : Bet N → Bool = λ b.
        (b.client_id == q.client_id)
        && leb q.from (midnight b.created)
        && leb (midnight b.created) q.to in
      let of_client : VirtualBet N → Bool = λ b. b.client_id == q.client_id in
      let both = λ (c : Bet N → Bool) (d : VirtualBet N → Bool).
        sold_to-both c in_time (λ b. b.user_id) s.bets d of_client (λ b. b.user_id) s.virtual_bets
          (u ∷ us) h in
      (
        both (λ b. true) (λ b. true),
        both (λ b. b.status =ℤ bet_pending) (λ b. b.status == 0),
        both (λ b. (b.status =ℤ bet_won) || (b.status =ℤ bet_lost))
            (λ b. (b.status == 1) || (b.status == 2)),
      )
