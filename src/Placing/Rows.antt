-- ===== src/Placing/Rows.antt =====
-- The rows that `placeBet` (src/bets/bets.service.ts) saves for a bet and its selections.
use betting_service.Prelude.{
  ℕ, suc, ◌==◌, ◌&&◌, Bool, String, str_eq, if◌then◌else◌, List, [], ◌∷◌, ◌++◌, Option, none, some,
  length,
}
use betting_service.Int.{pos, negsuc, bet_pending}
use betting_service.Entity.Bet.{Bet, BetInfo}
use betting_service.Entity.Slip.{BetSlip}
use betting_service.Floats.{Floats}
use betting_service.Table.{exists_where}
use betting_service.Store.{System, MtsSelection, inserts_bet, inserts_slip}
use betting_service.Store.Action.{Action, return, throw, get, modify, ◌>>=◌, ◌>>◌, statement}
use betting_service.Placing.Text.{Descriptions, descriptions}
use betting_service.Placing.Quoting.{PlaceBetRequest, Services, Quote, Validation}

abbrev source_of : Option String → String
source_of none = ""
source_of (some source) = source

module _ {N : Type 0} where
  -- `possible_win`: the stake at the total odds and the bonus, at most what may be won.
  unfoldable pub payout : System N → PlaceBetRequest N → Validation N → (total : N) → N
  payout sys req validation total =
      if less validation.max_winning (add (mul req.stake total) req.max_bonus)
      then validation.max_winning
      else add (mul req.stake total) req.max_bonus
    where
      open sys.floats use {less, add, mul}

  abbrev pub info_of : System N → PlaceBetRequest N → Validation N → Descriptions → BetInfo N
  info_of sys req validation texts = record {
    min_stake = sys.floats.zero_num;
    bet_type = "0";
    bet_category = req.bet_type;
    bet_category_desc = texts.category;
    event_type = req.event_type;
    min_odd = sys.floats.zero_num;
    tax_on_stake = sys.floats.zero_num;
    min_bonus = req.min_bonus;
    max_bonus = req.max_bonus;
    commission = validation.commission;
    print_count = 0;
    sports = texts.sports;
    tournaments = texts.tournaments;
    markets = texts.markets;
    events = texts.events;
    is_booked = req.is_booking;
    ip_address = req.ip_address;
  }

  -- A bet that is only booked belongs to a guest.
  abbrev pub bet_of :
      System N
      → Services N
      → PlaceBetRequest N
      → Validation N
      → (bonus_id : Option ℕ) → (selections : ℕ) → (total probability : N) → Descriptions
      → (id : ℕ) → Bet N
  bet_of sys svc req validation bonus_id selections total probability texts id = record {
    id = id;
    client_id = req.client_id;
    user_id = if req.is_booking == 0 then req.user_id else 0;
    bonus_id = bonus_id;
    username = if req.is_booking == 0 then req.username else "guest";
    betslip_id = svc.betslip_id;
    stake = req.stake;
    currency = validation.currency;
    total_odd = total;
    possible_win = payout sys req validation total;
    stake_after_tax = req.stake;
    tax_on_winning = sys.floats.zero_num;
    winning_after_tax = payout sys req validation total;
    total_bets = selections;
    status = bet_pending;
    cash_out_amount = sys.floats.zero_num;
    cash_out_status = pos 0;
    probability = probability;
    won = negsuc 0;
    source = source_of req.source;
    settlement_type = "system";
    settled_at = none;
    created = sys.time;
    info = info_of sys req validation texts;
  }

  -- The row, as the DECIMAL columns hold it.
  abbrev pub stored_bet : Floats N → Bet N → Bet N
  stored_bet floats b = record b {
    stake = decimal b.stake;
    total_odd = decimal b.total_odd;
    possible_win = decimal b.possible_win;
    stake_after_tax = decimal b.stake_after_tax;
    tax_on_winning = decimal b.tax_on_winning;
    winning_after_tax = decimal b.winning_after_tax;
    cash_out_amount = decimal b.cash_out_amount;
    probability = decimal b.probability;
    info = record (b.info) {
      min_stake = decimal b.info.min_stake;
      min_odd = decimal b.info.min_odd;
      tax_on_stake = decimal b.info.tax_on_stake;
      min_bonus = decimal b.info.min_bonus;
      max_bonus = decimal b.info.max_bonus;
      commission = decimal b.info.commission;
    };
  }
    where
      open floats use {decimal}

  -- `save`: the entity that it returns keeps the numbers that it was given.
  unfoldable pub insert_bet : System N → (ℕ → Bet N) → Action N (Bet N)
  insert_bet sys bet = statement sys inserts_bet (do
    id ← get (λ s. s.next_bet)
    modify (λ s. record s {
      bets = s.bets ++ stored_bet sys.floats (bet id) ∷ [];
      next_bet = suc s.next_bet;
    })
    return (bet id))

  unfoldable pub save_bet :
      System N
      → Services N
      → PlaceBetRequest N
      → Validation N
      → (bonus_id : Option ℕ) → List (Quote N)
      → (total probability : N) → Action N (Bet N)
  save_bet sys svc req validation bonus_id quotes total probability =
      elim (descriptions req.bet_type quotes) [
        | none ↦ throw
        | some texts ↦
            insert_bet sys
              (bet_of sys svc req validation bonus_id (length quotes) total probability texts)
      ]

  abbrev pub slip_of : System N → PlaceBetRequest N → Bet N → Quote N → (id : ℕ) → BetSlip N
  slip_of sys req bet q id = record {
    id = id;
    bet_id = bet.id;
    match_id = q.selection.match_id;
    event_type = q.selection.event_type;
    event_prefix = q.selection.event_prefix;
    producer_id = q.selection.producer_id;
    market_id = q.selection.market_id;
    specifier = q.specifier;
    outcome_id = q.selection.outcome_id;
    odds = sys.floats.decimal q.odds;
    won = negsuc 0;
    status = bet_pending;
    score = none;
    ht_score = none;
    void_factor = none;
    dead_heat_factor = none;
    settlement_id = none;
    settled_at = none;
    settlement_type = none;
    created = sys.time;
    info = record {
      client_id = req.client_id;
      user_id = req.user_id;
      event_id = q.selection.event_id;
      selection_id = q.selection.selection_id;
      event_name = q.selection.event_name;
      event_date = q.selection.event_date;
      tournament_name = q.selection.tournament;
      category_name = q.selection.category;
      sport_name = q.selection.sport;
      sport_id = q.selection.sport_id;
      market_name = q.selection.market_name;
      outcome_name = q.selection.outcome_name;
      probability = sys.floats.decimal q.probability;
      is_live = if str_eq q.selection.live_type "live" then 1 else 0;
    };
  }

  -- The unique index of the slips: the same bet, event, market, specifier and outcome.
  unfoldable pub same_selection : (bet_id : ℕ) → Quote N → BetSlip N → Bool
  same_selection bet_id q b =
      (b.bet_id == bet_id)
      && (b.info.event_id == q.selection.event_id)
      && (b.market_id == q.selection.market_id)
      && str_eq b.specifier q.specifier
      && str_eq b.outcome_id q.selection.outcome_id

  -- The INSERT of a slip, which the unique index may refuse.
  unfoldable pub save_slip : System N → PlaceBetRequest N → Bet N → Quote N → Action N (Unit {0})
  save_slip sys req bet q = statement sys inserts_slip (do
    taken ← get (λ s. exists_where (same_selection bet.id q) s.slips)
    (if taken
        then throw
        else modify (λ s. record s {
          slips = s.slips ++ slip_of sys req bet q s.next_slip ∷ [];
          next_slip = suc s.next_slip;
        })))

  abbrev pub mts_selection : Quote N → MtsSelection N
  mts_selection q = record {
    sport_id = q.selection.sport_id;
    producer_id = q.selection.producer_id;
    market_id = q.selection.market_id;
    outcome_id = q.selection.outcome_id;
    specifier = q.specifier;
    odds = q.odds;
    event_id = q.selection.match_id;
    event_type = q.selection.event_type;
    event_prefix = q.selection.event_prefix;
  }
