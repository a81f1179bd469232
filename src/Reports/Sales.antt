-- ===== src/Reports/Sales.antt =====
-- The sales of a cashier or of the users of an agent: `salesReport` of src/bets/report.service.ts,
-- `getShopUserReport`, `getAgentReport`, `getMasterAgentReport`, `getSuperAgentReport` and
-- `getTotalSales` of src/bets/retail.service.ts. A time is a number.
pub mod Cashier
mod Tests
use betting_service.Prelude.{
  ℕ, ◌+◌, ◌==◌, leb, Bool, true, false, ◌&&◌, ◌||◌, String, List, [], ◌∷◌, Option, none, some,
}
use betting_service.Int.{ℤ, pos, ◌=ℤ◌, bet_pending, bet_won, bet_lost}
use betting_service.Floats.{Floats}
use betting_service.Table.{select_where, count_where}
use betting_service.Entity.Bet.{Bet}
use betting_service.Entity.Games.{VirtualBet}
use betting_service.Store.{Store, Result, ok, thrown}
use betting_service.Reports.{total_winnings_of}
use betting_service.Reports.Games.{is_among, sum_by, fetch_user_ids}

-- A row of sums.
pub record Sales (N : Type 0) : Type 0 where
  pub running_bets : ℕ
  pub settled_bets : ℕ
  pub no_of_bets : ℕ
  pub stake : N
  pub winnings : N
  pub commission : N

-- `retail_sports`, `retail_virtual` and `grand_total`.
pub record SalesReport (N : Type 0) : Type 0 where
  pub retail_sports : Option (Sales N)
  pub retail_virtual : Option (Sales N)
  pub grand_total : Sales N

pub data Role : Type 0 where
  cashier shop agent master_agent super_agent other_role : Role

pub record SalesRequest : Type 0 where
  pub role : Role
  pub client_id : ℕ
  pub user_id : ℕ
  pub from : ℕ
  pub to : ℕ

-- What a caller gets: a report, 'No data found', or 'Something went wrong'.
pub data SalesReply (N : Type 0) : Type 0 where
  report : SalesReport N → SalesReply N
  no_data failed : SalesReply N

pub data Product : Type 0 where
  sports virtual other_product : Product

-- What `getTotalSales` answers: sums, success with no data, or 'Something went wrong'.
pub data TotalSales (N : Type 0) : Type 0 where
  sums : Sales N → TotalSales N
  no_sums failed_sums : TotalSales N

module _ {N : Type 0} (floats : Floats N) where
  -- `IFNULL(…, 0)`
  abbrev pub or_zero : Option N → N
  or_zero none = floats.zero_num
  or_zero (some x) = x

  -- The sums over bets, with the winnings that are joined.
  unfoldable pub sport_sales : Store N → List (Bet N) → Sales N
  sport_sales s bets = record {
    running_bets = count_where (λ b. b.status =ℤ bet_pending) bets;
    settled_bets = count_where (λ b. (b.status =ℤ bet_won) || (b.status =ℤ bet_lost)) bets;
    no_of_bets = count_where (λ b. true) bets;
    stake = sum_by floats (λ b. b.stake) bets;
    winnings = or_zero (total_winnings_of floats s bets);
    commission = sum_by floats (λ b. b.info.commission) bets;
  }

  unfoldable pub virtual_sales : List (VirtualBet N) → Sales N
  virtual_sales bets = record {
    running_bets = count_where (λ b. b.status == 0) bets;
    settled_bets = count_where (λ b. (b.status == 1) || (b.status == 2)) bets;
    no_of_bets = count_where (λ b. true) bets;
    stake = sum_by floats (λ b. b.stake) bets;
    winnings = sum_by floats (λ b. b.winnings) bets;
    commission = sum_by floats (λ b. b.commission) bets;
  }

  abbrev pub no_sales : Sales N
  no_sales = record {
    running_bets = 0;
    settled_bets = 0;
    no_of_bets = 0;
    stake = floats.zero_num;
    winnings = floats.zero_num;
    commission = floats.zero_num;
  }

  abbrev pub plus_sales : Sales N → Sales N → Sales N
  plus_sales a b = record {
    running_bets = a.running_bets + b.running_bets;
    settled_bets = a.settled_bets + b.settled_bets;
    no_of_bets = a.no_of_bets + b.no_of_bets;
    stake = floats.add a.stake b.stake;
    winnings = floats.add a.winnings b.winnings;
    commission = floats.add a.commission b.commission;
  }

  -- `bets.length ? bets[0].… : 0`
  abbrev pub or_none : Option (Sales N) → Sales N
  or_none none = no_sales
  or_none (some sales) = sales

  abbrev pub sales_report_of : Option (Sales N) → Option (Sales N) → SalesReport N
  sales_report_of sport virtual_ = record {
    retail_sports = sport;
    retail_virtual = virtual_;
    grand_total = plus_sales (or_none sport) (or_none virtual_);
  }

  -- The query of a cashier (report.service.ts) and that of a shop (retail.service.ts) are the same but for
  -- the condition on the seller, an argument. `DATE(b.created) BETWEEN … AND …`; `midnight` is DATE.
  unfoldable pub sold_by : (midnight : ℕ → ℕ) → SalesRequest → (ℕ → Bool) → Store N → SalesReport N
  sold_by midnight q is_seller s =
      sales_report_of
        (some (
          sport_sales s (
            select_where
              (λ b.
                (b.client_id == q.client_id)
                && leb q.from (midnight b.created)
                && leb (midnight b.created) q.to
                && is_seller b.user_id)
              s.bets)))
        (some (
          virtual_sales (
            select_where (λ b. (b.client_id == q.client_id) && is_seller b.user_id)
              s.virtual_bets)))

  -- With no users nothing is asked of the database.
  unfoldable pub shop_of : (midnight : ℕ → ℕ) → SalesRequest → Store N → List ℕ → SalesReport N
  shop_of midnight q s [] = sales_report_of none none
  shop_of midnight q s (u ∷ us) = sold_by midnight q (is_among (u ∷ us)) s

  abbrev pub reply_of : Result (SalesReport N) → SalesReply N
  reply_of (ok r) = report r
  reply_of thrown = failed

  abbrev pub map_result : {A B : Type 0} → (A → B) → Result A → Result B
  map_result f (ok a) = ok (f a)
  map_result f thrown = thrown

  -- `getShopUserReport` of the retail service
  unfoldable pub get_shop_user_report :
      (midnight : ℕ → ℕ)
      → (identity : Result (Option (List ℕ))) → SalesRequest
      → Store N
      → Result (SalesReport N)
  get_shop_user_report midnight identity q s =
      map_result (shop_of midnight q s) (fetch_user_ids identity)

  -- `getAgentReport`, `getMasterAgentReport` and `getSuperAgentReport` ask for the users and then for
  -- nothing.
  unfoldable pub get_agent_report : (identity : Result (Option (List ℕ))) → Result (SalesReport N)
  get_agent_report identity =
      map_result (λ users. sales_report_of none none) (fetch_user_ids identity)

  unfoldable pub sales_as :
      (midnight : ℕ → ℕ)
      → (identity : Result (Option (List ℕ))) → SalesRequest
      → Store N
      → Role
      → SalesReply N
  sales_as midnight identity q s cashier = report (sold_by midnight q (λ u. u == q.user_id) s)
  sales_as midnight identity q s shop = reply_of (get_shop_user_report midnight identity q s)
  sales_as midnight identity q s agent = reply_of (get_agent_report identity)
  sales_as midnight identity q s master_agent = reply_of (get_agent_report identity)
  sales_as midnight identity q s super_agent = reply_of (get_agent_report identity)
  sales_as midnight identity q s other_role = no_data

  unfoldable pub sales_report :
      (midnight : ℕ → ℕ)
      → (identity : Result (Option (List ℕ))) → SalesRequest
      → Store N
      → SalesReply N
  sales_report midnight identity q s = sales_as midnight identity q s q.role

  -- The two times are compared with the midnight of the day of a bet. The query of virtual bets names
  -- a table that it does not read, and is refused.
  unfoldable pub get_total_sales :
      (midnight : ℕ → ℕ) → Product → (from to : ℕ) → (users : List ℕ) → Store N → TotalSales N
  get_total_sales midnight sports from to users s = sums (
      sport_sales s (
        select_where
          (λ b.
            leb from (midnight b.created)
            && leb (midnight b.created) to
            && is_among users b.user_id)
          s.bets))
  get_total_sales midnight virtual from to users s = failed_sums
  get_total_sales midnight other_product from to users s = no_sums
