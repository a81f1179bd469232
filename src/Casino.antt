-- ===== src/Casino.antt =====
-- Casino bets: src/bets/casino-bet.service.ts, without the sums of `getCommissionReport`.
pub mod Follows
mod Tests
pub mod Rounds
use betting_service.Prelude.{
  ℕ, zero, suc, ◌+◌, ◌==◌, String, Bool, true, false, not, ◌&&◌, str_eq, if◌then◌else◌, List, [],
  ◌∷◌, ◌++◌, Option, none, some,
}
use betting_service.Int.{pos}
use betting_service.Table.{select_where, update_where, find_where}
use betting_service.Entity.Bet.{is_bonus}
use betting_service.Entity.Games.{CasinoBet}
use betting_service.Store.{
  Store, System, selects_casino_bet, updates_casino_bet, inserts_casino_bet, PlaceBonus,
}
use betting_service.Store.Action.{
  Action, return, get, modify, ◌>>=◌, ◌>>◌, try_catch, statement, when, for_each, call_settle,
  call_place,
}

pub record PlaceCasinoBetRequest (N : Type 0) : Type 0 where
  pub client_id : ℕ
  pub user_id : ℕ
  pub username : String
  pub game_id : String
  pub round_id : String
  pub transaction_id : String
  pub stake : N
  pub game_name : Option String
  pub game_number : Option String
  pub source : Option String
  pub cashier_transaction_id : Option String
  pub bonus_id : Option ℕ

pub record SettleCasinoBetRequest (N : Type 0) : Type 0 where
  pub transaction_id : String
  pub winnings : N
  pub provider : String

-- The replies: the identifier that `data.transactionId` gives is a bet's or the caller's own.
pub data CasinoReply : Type 0 where
  placed : ℕ → CasinoReply
  wrong_transaction already_processed cancelled round_closed : CasinoReply
  bet_not_found : CasinoReply
  already_closed settled : ℕ → CasinoReply
  failed : CasinoReply

module _ {N : Type 0} where
  abbrev pub has_transaction : String → CasinoBet N → Bool
  has_transaction id b = str_eq b.transaction_id id

  abbrev pub set_status : ℕ → CasinoBet N → CasinoBet N
  set_status status b = record b { status = status }

  pub update_bets :
      System N → (CasinoBet N → Bool) → (CasinoBet N → CasinoBet N) → Action N (Unit {0})
  update_bets sys which write =
      statement sys updates_casino_bet
        (modify λ s. record s { casino_bets = update_where which write s.casino_bets })

  -- After `findOneBy`: no bet, a bet that was cancelled before, or another.
  pub cancel_found : System N → String → Option (CasinoBet N) → Action N CasinoReply
  cancel_found sys id none = return wrong_transaction
  cancel_found sys id (some operator) =
      if operator.status == 3
      then return already_processed
      else (update_bets sys (has_transaction id) (set_status 3) >> return cancelled)

  pub cancel_casino_bet : System N → (transaction_id : String) → Action N CasinoReply
  cancel_casino_bet sys id =
      try_catch
        (do
          operator ←
              statement sys selects_casino_bet
                (get λ s. find_where (has_transaction id) s.casino_bets)
          cancel_found sys id operator)
        (return failed)

  -- The open bets of the round are lost.
  abbrev pub is_open_in : String → CasinoBet N → Bool
  is_open_in round_id b = str_eq b.round_id round_id && (b.status == 0)

  pub close_casino_round : System N → (round_id : String) → Action N CasinoReply
  close_casino_round sys round_id =
      try_catch (update_bets sys (is_open_in round_id) (set_status 2) >> return round_closed)
        (return failed)

  -- The bonus of the request goes to the bonus service alone: the row keeps no bonus.
  abbrev pub casino_bet_of : System N → PlaceCasinoBetRequest N → ℕ → CasinoBet N
  casino_bet_of sys req id = record {
    id = id;
    client_id = req.client_id;
    user_id = req.user_id;
    bonus_id = none;
    username = req.username;
    round_id = req.round_id;
    game_id = req.game_id;
    game_name = req.game_name;
    game_number = req.game_number;
    source = req.source;
    cashier_transaction_id = req.cashier_transaction_id;
    stake = req.stake;
    winnings = sys.floats.zero_num;
    commission = sys.floats.zero_num;
    transaction_id = req.transaction_id;
    status = 0;
    created_at = sys.time;
  }

  pub save_casino_bet : System N → PlaceCasinoBetRequest N → Action N ℕ
  save_casino_bet sys req = statement sys inserts_casino_bet (do
    id ← get (λ s. s.next_game_bet)
    modify λ s. record s {
      casino_bets = s.casino_bets ++ casino_bet_of sys req id ∷ [];
      next_game_bet = suc s.next_game_bet;
    }
    return id)

  -- The call for a bonus that is given and not 0.
  pub place_on_bonus :
      System N → PlaceCasinoBetRequest N → (bet_id : ℕ) → Option ℕ → Action N (Unit {0})
  place_on_bonus sys req bet_id none = return tt
  place_on_bonus sys req bet_id (some zero) = return tt
  place_on_bonus sys req bet_id (some (suc k)) = call_place sys (record {
    client_id = req.client_id;
    user_id = req.user_id;
    bonus_id = suc k;
    bet_id = bet_id;
    stake = req.stake;
    total_odds = sys.floats.zero_num;
  })

  pub place_casino_bet : System N → PlaceCasinoBetRequest N → Action N CasinoReply
  place_casino_bet sys req =
      try_catch
        (do
          id ← save_casino_bet sys req
          place_on_bonus sys req id req.bonus_id
          return (placed id))
        (return failed)

  -- `winnings > 0`
  pub result_of : System N → N → ℕ
  result_of sys winnings = if sys.floats.less sys.floats.zero_num winnings then 1 else 2

  abbrev pub write_winnings : System N → N → ℕ → CasinoBet N → CasinoBet N → CasinoBet N
  write_winnings sys winnings status single b = record b {
    winnings = sys.floats.add winnings single.winnings;
    status = status;
  }

  -- One turn of the loop: all rows of the transaction are written from one of them, as it was found.
  pub settle_single :
      System N → SettleCasinoBetRequest N → (status : ℕ) → CasinoBet N → Action N (Unit {0})
  settle_single sys req status single =
      update_bets sys (has_transaction req.transaction_id)
        (write_winnings sys req.winnings status single)
      >> when (is_bonus single.bonus_id) (do
        _ ← call_settle sys (record {
          client_id = single.client_id;
          bet_id = single.id;
          amount = req.winnings;
          status = pos status;
        })
        return tt)

  pub settle_found : System N → SettleCasinoBetRequest N → List (CasinoBet N) → Action N CasinoReply
  settle_found sys req [] = return bet_not_found
  settle_found sys req (first ∷ others) =
      if str_eq req.provider "smart-soft" && not (first.status == 0)
      then return (already_closed first.id)
      else (for_each (first ∷ others) (settle_single sys req (result_of sys req.winnings))
          >> return (settled first.id))

  pub settle_casino_bet : System N → SettleCasinoBetRequest N → Action N CasinoReply
  settle_casino_bet sys req =
      try_catch
        (do
          bets ←
              statement sys selects_casino_bet
                (get λ s. select_where (has_transaction req.transaction_id) s.casino_bets)
          settle_found sys req bets)
        (return failed)
