-- ===== src/Placing.antt =====
-- Placing a bet: `placeBet` and `getOdds` of src/bets/bets.service.ts. The child modules hold the
-- descriptions of a bet (Text), the reading of its selections (Quoting) and the rows (Rows).
pub mod Follows
pub mod Text
pub mod Quoting
pub mod Rows
pub mod Outcome
pub mod Booking
pub mod Coupon
mod Tests
use betting_service.Prelude.{
  ℕ, zero, suc, ◌==◌, String, Bool, true, false, str_eq, if◌then◌else◌, List, [], ◌∷◌, map, Option,
  none, some,
}
use betting_service.Entity.Bet.{Bet}
use betting_service.Store.{
  Store, System, Result, Payload, sport, sport_bonus, bet_deposit, bonus_bet, check_bonus,
}
use betting_service.Store.Action.{
  Action, return, get, modify, ◌>>=◌, ◌>>◌, attempt, when, for_each, call_debit, call_place,
  call_submit,
}
use betting_service.Placing.Quoting.{
  PlaceBetRequest, Services, Selection, Reading, quoted, refused, Quote, Validation, reply,
  read_selections, PlaceReply, missing_client, missing_stake, missing_source, missing_selections,
  invalid, bonus_refused, not_saved, placed,
}
use betting_service.Placing.Rows.{save_bet, save_slip, mts_selection}

abbrev bonus_number : Option ℕ → ℕ
bonus_number none = zero
bonus_number (some id) = id

module _ {N : Type 0} where
  -- The first check of the request that fails.
  pub check_request : System N → PlaceBetRequest N → Option (PlaceReply N)
  check_request sys req =
      if req.client_id == 0
      then some missing_client
      else if sys.floats.same req.stake sys.floats.zero_num
      then some missing_stake
      else if no_source req.source
      then some missing_source
      else none
    where
      no_source : Option String → Bool
      no_source none = true
      no_source (some source) = str_eq source ""

  -- The bonus of a bet that uses one: `none` is a refusal.
  pub bonus_for : Services N → PlaceBetRequest N → Action N (Option (Option ℕ))
  bonus_for svc req =
      if req.use_bonus
      then (do
        modify (λ s. record s { sent = check_bonus req.client_id req.user_id req.stake ∷ s.sent })
        bonus ← reply (svc.validate_selection req)
        return (valid bonus))
      else return (some none)
    where
      valid : Option ℕ → Option (Option ℕ)
      valid none = none
      valid (some id) = some (some id)

  abbrev pub debit_payload : PlaceBetRequest N → Bet N → Payload N
  debit_payload req bet = record {
    subject = if req.use_bonus then bonus_bet else bet_deposit;
    amount = req.stake;
    user_id = req.user_id;
    username = some req.username;
    client_id = req.client_id;
    source = some bet.source;
    betslip_id = some bet.betslip_id;
    wallet = if req.use_bonus then sport_bonus else sport;
  }

  -- The bonus service is told of a bonus bet, then the wallet is debited. What the wallet answers is
  -- not read.
  pub charge : System N → PlaceBetRequest N → Bet N → Action N (Unit {0})
  charge sys req bet =
      when req.use_bonus (
        call_place sys (record {
          client_id = req.client_id;
          user_id = req.user_id;
          bonus_id = bonus_number bet.bonus_id;
          bet_id = bet.id;
          stake = req.stake;
          total_odds = bet.total_odd;
        }))
      >> (do _ ← call_debit sys (debit_payload req bet); return tt)

  -- What the `try` block does.
  pub save :
      System N
      → Services N
      → PlaceBetRequest N
      → Validation N
      → (bonus_id : Option ℕ) → List (Quote N)
      → (total probability : N) → Action N (Bet N)
  save sys svc req validation bonus_id quotes total probability = do
    bet ← save_bet sys svc req validation bonus_id quotes total probability
    for_each quotes (save_slip sys req bet)
    when (req.is_booking == 0) (charge sys req bet)
    return bet

  -- What follows the `try` block: after an error the reply says so, and nothing is undone.
  pub after_save :
      System N
      → PlaceBetRequest N
      → Validation N
      → List (Quote N)
      → Option (Bet N)
      → Action N (PlaceReply N)
  after_save sys req validation quotes none = return not_saved
  after_save sys req validation quotes (some bet) =
      when (req.is_booking == 0) (
        call_submit sys (record {
          bet_id = bet.id;
          profile_id = req.user_id;
          ip_address = req.ip_address;
          stake = req.stake;
          currency = validation.currency;
          bets = map mts_selection quotes;
        }))
      >> return (placed bet.betslip_id bet.stake bet.possible_win bet.total_odd)

  pub with_bonus :
      System N
      → Services N
      → PlaceBetRequest N
      → Validation N
      → List (Quote N)
      → (total probability : N) → Option (Option ℕ)
      → Action N (PlaceReply N)
  with_bonus sys svc req validation quotes total probability none = return bonus_refused
  with_bonus sys svc req validation quotes total probability (some bonus_id) = do
    bet ← attempt (save sys svc req validation bonus_id quotes total probability)
    after_save sys req validation quotes bet

  -- After the reply of the identity service.
  pub validated :
      System N
      → Services N
      → PlaceBetRequest N
      → List (Quote N)
      → (total probability : N) → Option (Validation N)
      → Action N (PlaceReply N)
  validated sys svc req quotes total probability none = return invalid
  validated sys svc req quotes total probability (some validation) = do
    bonus ← bonus_for svc req
    with_bonus sys svc req validation quotes total probability bonus

  -- After the loop over the selections.
  pub after_reading :
      System N → Services N → PlaceBetRequest N → Reading N → Action N (PlaceReply N)
  after_reading sys svc req (refused r) = return r
  after_reading sys svc req (quoted quotes total probability) = do
    answer ← reply (svc.validate_bet req total)
    validated sys svc req quotes total probability answer

  -- After the checks of the request itself.
  pub checked :
      System N
      → Services N
      → PlaceBetRequest N
      → Option (PlaceReply N)
      → Option (List (Selection N))
      → Action N (PlaceReply N)
  checked sys svc req (some r) selections = return r
  checked sys svc req none none = return missing_selections
  checked sys svc req none (some selections) =
      read_selections sys svc selections [] sys.floats.one_num sys.floats.one_num
      >>= after_reading sys svc req

  pub place_bet : System N → Services N → PlaceBetRequest N → Action N (PlaceReply N)
  place_bet sys svc req = checked sys svc req (check_request sys req) req.selections
