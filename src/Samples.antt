-- ===== src/Samples.antt =====
-- Concrete rows, services and stores at which the tests and the witnesses run. Amounts and odds are
-- hundredths, as numbers.
use betting_service.Prelude.{
  ℕ, ◌+◌, ◌-◌, ◌*◌, ◌/◌, Bool, true, false, ◌==◌, ltb, [], ◌∷◌, none, some,
}
use betting_service.Int.{pos, negsuc}
use betting_service.Floats.{Floats}
use betting_service.Entity.Bet.{Bet, BetInfo}
use betting_service.Entity.Slip.{BetSlip, SlipInfo}
use betting_service.Entity.Records.{Setting, Settlement}
use betting_service.Store.{Store, System, Statement, inserts_winning, ok, thrown}

abbrev pub hundredths : Floats ℕ
hundredths = record {
  zero_num = 0;
  one_num = 100;
  add = λ a b. a + b;
  sub = λ a b. a - b;
  mul = λ a b. a * b / 100;
  div = λ a b. a * 100 / b;
  less = ltb;
  same = ◌==◌;
  of_ℕ = λ n. n * 100;
  decimal = λ n. n;
}

-- All statements run, the bonus service answers 700 and the wallet 5000.
abbrev pub running : System ℕ
running = record {
  floats = hundredths;
  now = "2024-09-14 10:00:00";
  time = 1000;
  fails = λ st. false;
  on_settle = λ es q. ok (record { success = true; amount = 700 });
  on_place = λ es p. ok tt;
  on_submit = λ es q. ok tt;
  on_credit = λ es p. ok (some 5000);
  on_debit = λ es p. ok (some 5000);
}

abbrev pub refuses_winning : Statement → Bool
refuses_winning inserts_winning = true
refuses_winning st = false

abbrev pub no_winnings : System ℕ
no_winnings = record running { fails = refuses_winning }

abbrev pub silent : System ℕ
silent = record running { on_settle = λ es q. thrown; on_credit = λ es p. thrown }

abbrev pub sample_info : BetInfo ℕ
sample_info = record {
  min_stake = 0;
  bet_type = "0";
  bet_category = "Multiple";
  bet_category_desc = "Com: Doubles";
  event_type = "pre";
  min_odd = 0;
  tax_on_stake = 0;
  min_bonus = 0;
  max_bonus = 0;
  commission = 0;
  print_count = 0;
  sports = "Football";
  tournaments = "Cup";
  markets = "1X2";
  events = "2 Events";
  is_booked = 0;
  ip_address = "10.0.0.1";
}

-- A stake of 10.00 at odds of 3.00, pending, marked as won by its slips.
abbrev pub won_bet : Bet ℕ
won_bet = record {
  id = 7;
  client_id = 1;
  user_id = 42;
  bonus_id = none;
  username = "ada";
  betslip_id = "AB12CD3";
  stake = 1000;
  currency = "NGN";
  total_odd = 300;
  possible_win = 3000;
  stake_after_tax = 1000;
  tax_on_winning = 0;
  winning_after_tax = 3000;
  total_bets = 2;
  status = pos 0;
  cash_out_amount = 0;
  cash_out_status = pos 0;
  probability = 33;
  won = pos 1;
  source = "web";
  settlement_type = "system";
  settled_at = none;
  created = 960;
  info = sample_info;
}

abbrev pub slip_info : SlipInfo ℕ
slip_info = record {
  client_id = 1;
  user_id = 42;
  event_id = 900;
  selection_id = "s1";
  event_name = "A v B";
  event_date = "2024-09-14";
  tournament_name = "Cup";
  category_name = "World";
  sport_name = "Football";
  sport_id = 1;
  market_name = "1X2";
  outcome_name = "1";
  probability = 50;
  is_live = 0;
}

abbrev pub slip : BetSlip ℕ
slip = record {
  id = 70;
  bet_id = 7;
  match_id = 900;
  event_type = "match";
  event_prefix = "sr";
  producer_id = 3;
  market_id = 1;
  specifier = "";
  outcome_id = "1";
  odds = 200;
  won = negsuc 0;
  status = pos 0;
  score = none;
  ht_score = none;
  void_factor = none;
  dead_heat_factor = none;
  settlement_id = none;
  settled_at = none;
  settlement_type = none;
  created = 960;
  info = slip_info;
}

abbrev pub lost_slip : BetSlip ℕ
lost_slip = record slip { id = 71; market_id = 2; won = pos 0; status = pos 2 }

abbrev pub open_bet : Bet ℕ
open_bet = record won_bet { id = 8; won = negsuc 0; bonus_id = some 5; betslip_id = "XY34ZW5" }

abbrev pub cashed_bet : Bet ℕ
cashed_bet = record won_bet { id = 9; status = pos 5; betslip_id = "QQ11QQ1" }

abbrev pub settlement : Settlement ℕ
settlement = record {
  id = 1;
  event_id = 900;
  event_type = "match";
  event_prefix = "sr";
  producer_id = 3;
  market_id = 1;
  specifier = "";
  outcome_id = "1";
  ft_score = some "1:0";
  ht_score = some "0:0";
  status = pos 1;
  processed = 0;
  void_factor = 0;
  dead_heat_factor = 0;
}

abbrev pub setting : Setting ℕ
setting = record {
  client_id = 1;
  tax_on_stake = 0;
  tax_on_winning = 0;
  minimum_stake = 100;
  maximum_stake = 100000;
  maximum_winning = 500000;
  maximum_selections = 30;
  mts_limit_id = 4793;
  currency = "NGN";
  url = none;
}

abbrev pub store : Store ℕ
store = record {
  bets = won_bet ∷ open_bet ∷ cashed_bet ∷ [];
  slips = slip ∷ lost_slip ∷ [];
  winnings = [];
  next_winning = 1;
  next_settlement = 2;
  settlements = settlement ∷ [];
  statuses = [];
  closures = [];
  cronjobs = [];
  settings = setting ∷ [];
  cancels = [];
  rollbacks = [];
  ladders =
      record { id = 1; ladder_type = "low_reduction"; ticket_value = 0; deduction_factor = 200 }
      ∷ [];
  casino_bets = [];
  virtual_bets = [];
  next_bet = 10;
  next_slip = 72;
  next_game_bet = 1;
  sent = [];
}
