-- ===== src/Reports/Sales/Tests.antt =====
-- The sales of a shop at the samples.
use betting_service.Prelude.{ℕ, ◌≡◌, refl, List, [], ◌∷◌}
use betting_service.Table.{select_where, count_where}
use betting_service.Reports.Sales.{SalesRequest, shop, shop_of, sold_by, sport_sales, virtual_sales}
use betting_service.Reports.Sales.Cashier.{
  Distinct, of_shop, of_cashier, total_over, get_shop_user_report-total,
}
use betting_service.Samples.{hundredths, store, open_bet}

abbrev shop_sales : SalesRequest
shop_sales = record {
  role = shop;
  client_id = open_bet.client_id;
  user_id = 1;
  from = 0;
  to = 100000;
}

abbrev sellers : List ℕ
sellers = open_bet.user_id ∷ 77 ∷ []

-- The three bets of the samples.
three_sold : (of_shop hundredths (λ time. time) shop_sales store sellers).no_of_bets ≡ 3
unfolding shop_of sold_by sport_sales virtual_sales select_where count_where
three_sold = refl

sellers-Distinct : Distinct sellers
sellers-Distinct = (refl, (refl, tt))

get_shop_user_report-total_example :
    ((of_shop hundredths (λ time. time) shop_sales store sellers).no_of_bets
      ≡ total_over
          (λ u. (of_cashier hundredths (λ time. time) shop_sales store u).no_of_bets)
          sellers)
    × ((of_shop hundredths (λ time. time) shop_sales store sellers).running_bets
        ≡ total_over
            (λ u. (of_cashier hundredths (λ time. time) shop_sales store u).running_bets)
            sellers)
    × ((of_shop hundredths (λ time. time) shop_sales store sellers).settled_bets
        ≡ total_over
            (λ u. (of_cashier hundredths (λ time. time) shop_sales store u).settled_bets)
            sellers)
get_shop_user_report-total_example =
    get_shop_user_report-total hundredths (λ time. time) shop_sales store sellers sellers-Distinct
