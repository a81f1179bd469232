-- ===== src/Cashout.antt =====
-- Cash-out: src/bets/cashout.service.ts, without `checkCashoutAvailability`, `getOddsProbability` and
-- `getOddsOutrightsProbability`, which nothing calls.
pub mod Follows
mod Tests
pub mod Offer
pub mod Paid
pub mod Exclusive
use betting_service.Prelude.{
  ℕ, zero, suc, ◌+◌, String, Bool, true, false, not, ◌&&◌, ◌||◌, ◌==◌, leb, if◌then◌else◌, str_eq,
  codes, List, [], ◌∷◌, map, Option, none, some,
}
use betting_service.Int.{ℤ, pos, ◌=ℤ◌, bet_pending, bet_cashout, status_lost, status_won}
use betting_service.Floats.{Floats}
use betting_service.Table.{select_where, update_where, count_where, find_where}
use betting_service.Entity.Bet.{Bet}
use betting_service.Entity.Slip.{BetSlip}
use betting_service.Entity.Records.{Winning}
use betting_service.Entity.Games.{CashoutLadder}
use betting_service.Store.{
  Store, System, Payload, sport, sport_win_cashout, inserts_winning, updates_bet,
}
use betting_service.Store.Action.{
  Action, return, throw, get, modify, ◌>>=◌, ◌>>◌, attempt, try_catch, statement, call_credit,
  for_each,
}
use betting_service.Closing.{save_winning}

-- `toLowerCase`, where the text is then compared with an ASCII word.
abbrev pub lower_code : ℕ → ℕ
lower_code c = if leb b'A' c && leb c b'Z' then c + 32 else c

abbrev pub same_codes : List ℕ → List ℕ → Bool
same_codes [] [] = true
same_codes (x ∷ xs) (y ∷ ys) = (x == y) && same_codes xs ys
same_codes xs ys = false

-- `eventType.toLowerCase() === 'match'`
unfoldable pub is_match : String → Bool
is_match event_type = same_codes (map lower_code (codes event_type)) (codes "match")

-- `!bonus_id || bonus_id !== 0`
abbrev pub may_cash_out : Option ℕ → Bool
may_cash_out none = true
may_cash_out (some n) = (n == 0) || not (n == 0)

-- What the caller gets: nothing, where the code returns undefined, or one of its replies.
pub data CashoutReply (N : Type 0) : Type 0 where
  nothing unavailable failed : CashoutReply N
  changed : N → CashoutReply N
  successful : N → CashoutReply N

-- ProbabilityBetSlipSelection, without the columns that are copied.
pub record SelectionProbability (N : Type 0) : Type 0 where
  pub slip : BetSlip N
  pub initial_probability : N
  pub current_probability : N

pub record Probability (N : Type 0) : Type 0 where
  pub current_probability : N
  pub initial_probability : N
  pub selections : List (SelectionProbability N)

module _ {N : Type 0} where
  -- The odds of a match give its probability; an outright has none.
  unfoldable pub get_probability : Floats N → (event_type : String) → (odds : N) → N
  get_probability floats event_type odds =
      if is_match event_type then floats.div floats.one_num odds else floats.zero_num

  -- The rows of the ladder that a ticket value reaches; `getOne` takes the first.
  pub is_reached : Floats N → N → CashoutLadder N → Bool
  is_reached floats value l =
      str_eq l.ladder_type "low_reduction"
      && (floats.less l.ticket_value value || floats.same l.ticket_value value)

  pub cashout_value : Floats N → (current stake odds : N) → Option (CashoutLadder N) → N
  cashout_value floats current stake odds none = floats.zero_num
  cashout_value floats current stake odds (some ladder) =
      mul (div (mul (mul stake current) odds) ladder.deduction_factor) (of_ℕ 100)
    where
      open floats use {mul, div, of_ℕ}

  pub calculate_cashout : Floats N → List (CashoutLadder N) → (current ticket stake odds : N) → N
  calculate_cashout floats ladders current ticket stake odds =
      cashout_value floats current stake odds
        (find_where (is_reached floats (floats.div current ticket)) ladders)

  -- The loop over the slips of the bet: `none` is the return at a lost slip; else the products of the
  -- odds and of the probabilities. The bet is pending here.
  unfoldable pub walk_slips :
      Floats N → (bonus_id : Option ℕ) → (odds probability : N) → List (BetSlip N) → Option (N × N)
  walk_slips floats bonus_id odds probability [] = some (odds, probability)
  walk_slips floats bonus_id odds probability (b ∷ bs) = elim (b.won =ℤ status_lost) [
    | true ↦ none
    | false ↦
        let open_slip = may_cash_out bonus_id in
        walk_slips floats bonus_id (if open_slip then floats.mul odds b.odds else odds)
          (if open_slip
            then floats.mul probability (get_probability floats b.event_type b.odds)
            else probability)
          bs
  ]

  -- `cashOutAmount`, from the products.
  unfoldable pub offer :
      Floats N → List (CashoutLadder N) → Bet N → (lost_games : ℕ) → (odds probability : N) → N
  offer floats ladders bet lost_games odds probability =
      if floats.less floats.zero_num probability
        && may_cash_out bet.bonus_id
        && (bet.status =ℤ bet_pending)
        && (lost_games == 0)
      then calculate_cashout floats ladders probability bet.probability bet.stake odds
      else floats.zero_num

  abbrev pub cash_bet : N → Bet N → Bet N
  cash_bet amount b = record b {
    status = bet_cashout;
    winning_after_tax = amount;
    won = status_won;
  }

  abbrev pub cashout_winning : ℕ → N → Bet N → Winning N
  cashout_winning bet_id amount bet = record {
    id = 0;
    bet_id = bet_id;
    client_id = bet.client_id;
    user_id = bet.user_id;
    currency = bet.currency;
    winning_before_tax = amount;
    tax_on_winning = amount;
    winning_after_tax = amount;
  }

  abbrev pub cashout_payload : N → Bet N → Payload N
  cashout_payload amount bet = record {
    subject = sport_win_cashout;
    amount = amount;
    user_id = bet.user_id;
    username = some bet.username;
    client_id = bet.client_id;
    source = some bet.source;
    betslip_id = some bet.betslip_id;
    wallet = sport;
  }

  -- `wallet.data.availableBalance`: without `data` it throws.
  pub reply_with : Option N → Action N (CashoutReply N)
  reply_with none = throw
  reply_with (some balance) = return (successful balance)

  -- What follows the save of the winning, which may have failed.
  pub after_winning : System N → N → Bet N → Option (Winning N) → Action N (CashoutReply N)
  after_winning sys amount bet none = return nothing
  after_winning sys amount bet (some winner) = do
    balance ← call_credit sys (cashout_payload amount bet)
    reply_with balance

  -- From the update of the bet on.
  pub cash_out : System N → ℕ → N → Bet N → Action N (CashoutReply N)
  cash_out sys bet_id amount bet = do
    statement sys updates_bet (
        modify λ s. record s {
          bets = update_where (λ b. b.id == bet_id) (cash_bet (sys.floats.decimal amount)) s.bets;
        })
    saved ← attempt (
        statement sys inserts_winning
          (save_winning (cashout_winning bet_id (sys.floats.decimal amount) bet)))
    after_winning sys amount bet saved

  -- A requested amount that is not the offer is answered with the offer.
  pub at_offer : System N → ℕ → (amount : N) → Bet N → (offered : N) → Action N (CashoutReply N)
  at_offer sys bet_id amount bet offered =
      if sys.floats.same offered amount
      then cash_out sys bet_id amount bet
      else return (changed offered)

  pub at_products :
      System N
      → ℕ
      → N
      → Bet N
      → List (CashoutLadder N)
      → (lost_games : ℕ) → Option (N × N)
      → Action N (CashoutReply N)
  at_products sys bet_id amount bet ladders lost_games none = return nothing
  at_products sys bet_id amount bet ladders lost_games (some (odds, probability)) =
      at_offer sys bet_id amount bet (offer sys.floats ladders bet lost_games odds probability)

  -- The status of no bet is read with a throw.
  pub process_bet : System N → ℕ → N → Option (Bet N) → Action N (CashoutReply N)
  process_bet sys bet_id amount none = throw
  process_bet sys bet_id amount (some bet) =
      if bet.status =ℤ bet_pending
      then (do
        slips ← get (λ s. select_where (λ b. b.bet_id == bet.id) s.slips)
        lost_games ←
            get (λ s. count_where (λ b. (b.bet_id == bet_id) && (b.won =ℤ status_lost)) s.slips)
        ladders ← get (λ s. s.ladders)
        at_products sys bet_id amount bet ladders lost_games
            (walk_slips sys.floats bet.bonus_id sys.floats.one_num sys.floats.one_num slips))
      else return unavailable

  pub process_cashout : System N → (bet_id : ℕ) → (amount : N) → Action N (CashoutReply N)
  process_cashout sys bet_id amount =
      try_catch
        (do
          bet ← get (λ s. find_where (λ b. b.id == bet_id) s.bets)
          process_bet sys bet_id amount bet)
        (return failed)

  -- `getProbabilityFromBetID`: the products over the slips of a bet.
  abbrev pub slip_probability : Floats N → BetSlip N → SelectionProbability N
  slip_probability floats b = record {
    slip = b;
    initial_probability = b.info.probability;
    current_probability = get_probability floats b.event_type b.odds;
  }

  pub multiply : Floats N → N → List (SelectionProbability N) → N
  multiply floats probability [] = probability
  multiply floats probability (p ∷ ps) =
      multiply floats (floats.mul probability p.current_probability) ps

  pub probability_of : Floats N → List (BetSlip N) → Option (Bet N) → Action N (Probability N)
  probability_of floats slips none = throw
  probability_of floats slips (some bet) =
      let selections = map (slip_probability floats) slips in
      return (record {
        current_probability = multiply floats floats.one_num selections;
        initial_probability = bet.probability;
        selections = selections;
      })

  pub get_probability_from_bet_id : System N → ℕ → Action N (Probability N)
  get_probability_from_bet_id sys bet_id = do
    bet ← get (λ s. find_where (λ b. b.id == bet_id) s.bets)
    slips ← get (λ s. select_where (λ b. b.bet_id == bet_id) s.slips)
    probability_of sys.floats slips bet
