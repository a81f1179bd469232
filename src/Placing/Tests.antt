-- ===== src/Placing/Tests.antt =====
-- Placing bets at the samples.
use betting_service.Prelude.{ℕ, ◌≡◌, refl, false, [], ◌∷◌, some, none, List, map}
use betting_service.Store.{System, ok, thrown, submit}
use betting_service.Store.Action.{steps}
use betting_service.Table.{exists_where, find_where, select_where}
use betting_service.Placing.Text.{
  Descriptions, descriptions, count_item, group_selections, bet_type_description,
}
use betting_service.Placing.Quoting.{
  Selection, PlaceBetRequest, Services, Validation, Quote, placed, not_saved, read_selections,
  quote_of, defaults, reply, check_selection, get_odds, odds_status, active_odds, times_odds,
  times_probability,
}
use betting_service.Placing.Quoting.Odds.{read_selections-total, product_of, Offered}
use betting_service.Placing.Rows.{payout, same_selection}
use betting_service.Placing.{place_bet, check_request}
use betting_service.Placing.Outcome.{
  Acceptable, debited, message, place_bet-writes, place_bet-unpaid,
}
use betting_service.Placing.Booking.{orders, place_bet-books}
use betting_service.Cashout.{get_probability, is_match}
use betting_service.Placing.Coupon.{find_coupon, coupon_of, offered_slips, found}
use betting_service.Samples.{running, store, won_bet, slip, lost_slip}

-- The odds of now are 2.00, whatever the request says.
abbrev services : Services ℕ
services = record {
  producer_status = λ p. ok 1;
  get_odds_status = λ q. ok (record { status_name = "Active"; active = 1; odds = 200 });
  get_outrights_odds_status = λ q. thrown;
  validate_bet =
      λ req total. ok (some (record { max_winning = 20000; currency = "NGN"; commission = 0 }));
  validate_selection = λ req. ok none;
  betslip_id = "ZZ99ZZ9";
  round2 = λ n. n;
}

-- The request has odds of 9.00.
abbrev chosen : Selection ℕ
chosen = record {
  event_name = "A v B";
  event_date = "2024-09-14";
  selection_id = "s1";
  event_type = "";
  event_prefix = "";
  producer_id = 3;
  sport_id = 1;
  event_id = 900;
  match_id = 900;
  market_id = 1;
  market_name = "1X2";
  specifier = some "";
  outcome_name = "1";
  outcome_id = "1";
  tournament = "Cup";
  category = "World";
  sport = "Football";
  odds = 900;
  live_type = "pre";
}

abbrev request : PlaceBetRequest ℕ
request = record {
  client_id = 1;
  user_id = 42;
  username = "ada";
  stake = 1000;
  source = some "web";
  selections = some (chosen ∷ []);
  bet_type = "Single";
  event_type = "pre";
  ip_address = "10.0.0.1";
  min_bonus = 0;
  max_bonus = 0;
  is_booking = 0;
  use_bonus = false;
}

abbrev booking : PlaceBetRequest ℕ
booking = record request { is_booking = 1 }

abbrev quotes : List (Quote ℕ)
quotes = quote_of running (defaults chosen) 200 ∷ []

abbrev validation : Validation ℕ
validation = record { max_winning = 20000; currency = "NGN"; commission = 0 }

abbrev texts : Descriptions
texts = record {
  category = "Singles";
  sports = "Football";
  events = "A v B";
  tournaments = "Cup";
  markets = "1X2";
}

-- The wallet does not answer.
abbrev no_wallet : System ℕ
no_wallet = record running { on_debit = λ es p. thrown }

request-Acceptable : Acceptable running services request quotes 900 50 validation texts store
unfolding check_request read_selections check_selection get_odds odds_status active_odds times_odds
    times_probability get_probability is_match descriptions count_item group_selections exists_where
    bet_type_description reply steps same_selection
request-Acceptable = record {
  selections = chosen ∷ [];
  has_selections = refl;
  is_checked = refl;
  no_booking = refl;
  no_bonus = refl;
  is_quoted = refl;
  is_valid = refl;
  is_described = refl;
  inserts = (refl, refl);
  is_unique = (refl, tt);
}

request-Acceptable_no_wallet :
    Acceptable no_wallet services request quotes 900 50 validation texts store
unfolding check_request read_selections check_selection get_odds odds_status active_odds times_odds
    times_probability get_probability is_match descriptions count_item group_selections exists_where
    bet_type_description reply steps same_selection
request-Acceptable_no_wallet = record {
  selections = chosen ∷ [];
  has_selections = refl;
  is_checked = refl;
  no_booking = refl;
  no_bonus = refl;
  is_quoted = refl;
  is_valid = refl;
  is_described = refl;
  inserts = (refl, refl);
  is_unique = (refl, tt);
}

place_bet-writes_example :
    let h = request-Acceptable in
    let t = debited running services request quotes 900 50 validation texts store h in
    place_bet running services request store ≡ (
      ok (placed "ZZ99ZZ9" 1000 (payout running request validation 900) 900),
      record t {
        sent =
            submit (message running services request quotes 900 50 validation texts store h)
            ∷ t.sent;
      },
    )
place_bet-writes_example =
    place_bet-writes running services request quotes 900 50 validation texts store
      request-Acceptable (some 5000) refl refl

place_bet-unpaid_example : place_bet no_wallet services request store ≡ (
  ok not_saved,
  debited no_wallet services request quotes 900 50 validation texts store
      request-Acceptable_no_wallet,
)
place_bet-unpaid_example =
    place_bet-unpaid no_wallet services request quotes 900 50 validation texts store
      request-Acceptable_no_wallet refl

-- The total is 9.00, though the slip is at 2.00.
read_selections-total_example :
    (900 ≡ product_of running services 100 (chosen ∷ []))
    × (map (λ q. q.selection) quotes ≡ map defaults (chosen ∷ []))
    × Offered running services quotes
    × (store ≡ store)
unfolding read_selections check_selection get_odds odds_status active_odds times_odds
    times_probability get_probability is_match reply steps
read_selections-total_example =
    read_selections-total running services (chosen ∷ []) quotes 900 50 store store refl

-- The slip at the odds of its booking, as the services answer for both.
find_coupon_test :
    (find_coupon running services "AB12CD3" 1 store).0 ≡ ok (found won_bet (slip ∷ lost_slip ∷ []))
unfolding find_coupon coupon_of offered_slips get_odds odds_status active_odds is_match reply
    find_where select_where steps
find_coupon_test = refl

place_bet-books_example : orders (place_bet running services booking store).1.sent ≡ []
unfolding orders
place_bet-books_example = place_bet-books running services booking refl store
