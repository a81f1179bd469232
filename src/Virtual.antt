-- ===== src/Virtual.antt =====
-- Virtual bets: src/bets/virtual-bet.service.ts, without the lists and sums of `getTickets` and
-- `getCommissionReport`.
pub mod Follows
mod Tests
pub mod Rounds
use betting_service.Prelude.{
  ℕ, suc, ◌==◌, String, Bool, true, false, ◌&&◌, str_eq, if◌then◌else◌, List, [], ◌∷◌, ◌++◌, Option,
  none, some,
}
use betting_service.Table.{update_where, exists_where, find_where}
use betting_service.Entity.Games.{VirtualBet}
use betting_service.Store.{
  Store, System, selects_virtual_bet, updates_virtual_bet, inserts_virtual_bet, ok, thrown,
}
use betting_service.Store.Action.{Action, return, get, modify, ◌>>=◌, ◌>>◌, try_catch, statement}

pub record PlaceVirtualBetRequest (N : Type 0) : Type 0 where
  pub client_id : ℕ
  pub user_id : ℕ
  pub username : String
  pub game_id : String
  pub round_id : String
  pub transaction_id : String
  pub transaction_category : String
  pub stake : N

pub record SettleVirtualBetRequest (N : Type 0) : Type 0 where
  pub round_id : String
  pub amount : N
  pub jackpot : N
  pub category : String
  pub game_cycle_closed : ℕ

-- GetVirtualBetResponse; `ticket` is `data`.
pub record VirtualTicket (N : Type 0) : Type 0 where
  pub success : Bool
  pub game_id : Bool
  pub transaction_id : Bool
  pub ticket : Option (VirtualBet N)

-- SettleVirtualBetResponse, with the text of an error left out.
pub record SettleReply : Type 0 where
  pub success : Bool
  pub completed : Bool

module _ {N : Type 0} where
  abbrev pub virtual_bet_of : System N → PlaceVirtualBetRequest N → ℕ → VirtualBet N
  virtual_bet_of sys req id = record {
    id = id;
    client_id = req.client_id;
    user_id = req.user_id;
    username = req.username;
    round_id = req.round_id;
    game_id = req.game_id;
    stake = req.stake;
    winnings = sys.floats.zero_num;
    jackpot_amount = sys.floats.zero_num;
    commission = sys.floats.zero_num;
    transaction_id = req.transaction_id;
    transaction_category = req.transaction_category;
    game_cycle_closed = 0;
    status = 0;
    created_at = sys.time;
  }

  abbrev pub same_transaction : PlaceVirtualBetRequest N → VirtualBet N → Bool
  same_transaction req b =
      str_eq b.round_id req.round_id && str_eq b.transaction_id req.transaction_id

  -- The unique index refuses a second row for a round and a transaction.
  pub insert_virtual_bet : System N → PlaceVirtualBetRequest N → Action N (VirtualBet N)
  insert_virtual_bet sys req s =
      if exists_where (same_transaction req) s.virtual_bets then (thrown, s) else (
        ok (virtual_bet_of sys req s.next_game_bet),
        record s {
          virtual_bets = s.virtual_bets ++ virtual_bet_of sys req s.next_game_bet ∷ [];
          next_game_bet = suc s.next_game_bet;
        },
      )

  -- The bet that was saved, or nothing after an error.
  pub place_virtual_bet : System N → PlaceVirtualBetRequest N → Action N (Option (VirtualBet N))
  place_virtual_bet sys req =
      try_catch
        (do bet ← statement sys inserts_virtual_bet (insert_virtual_bet sys req); return (some bet))
        (return none)

  abbrev pub in_game : ℕ → String → VirtualBet N → Bool
  in_game client_id round_id b = (b.client_id == client_id) && str_eq b.round_id round_id

  abbrev pub in_transaction : ℕ → String → VirtualBet N → Bool
  in_transaction client_id id b = (b.client_id == client_id) && str_eq b.transaction_id id

  abbrev pub no_ticket : VirtualTicket N
  no_ticket = record { success = false; game_id = false; transaction_id = false; ticket = none }

  pub ticket_of : Option (VirtualBet N) → Option (VirtualBet N) → VirtualTicket N
  ticket_of none none = no_ticket
  ticket_of (some game) none = record {
    success = true;
    game_id = true;
    transaction_id = false;
    ticket = some game;
  }
  ticket_of none (some bet) = record {
    success = true;
    game_id = false;
    transaction_id = true;
    ticket = some bet;
  }
  ticket_of (some game) (some bet) = record {
    success = true;
    game_id = true;
    transaction_id = true;
    ticket = some bet;
  }

  pub get_virtual_ticket :
      System N → (client_id : ℕ) → (game_id transaction_id : String) → Action N (VirtualTicket N)
  get_virtual_ticket sys client_id game_id transaction_id =
      try_catch
        (do
          game ←
              statement sys selects_virtual_bet
                (get λ s. find_where (in_game client_id game_id) s.virtual_bets)
          bet ←
              statement sys selects_virtual_bet
                (get λ s. find_where (in_transaction client_id transaction_id) s.virtual_bets)
          return (ticket_of game bet))
        (return no_ticket)

  abbrev pub settle_round : System N → SettleVirtualBetRequest N → VirtualBet N → VirtualBet N
  settle_round sys req b = record b {
    winnings = req.amount;
    jackpot_amount = req.jackpot;
    game_cycle_closed = req.game_cycle_closed;
    transaction_category = req.category;
    status = if sys.floats.less sys.floats.zero_num req.amount then 1 else 2;
  }

  -- The reply says that it failed in either case.
  pub settle_bet : System N → SettleVirtualBetRequest N → Action N SettleReply
  settle_bet sys req =
      try_catch
        (do
          statement sys updates_virtual_bet (
              modify λ s. record s {
                virtual_bets =
                    update_where (λ b. str_eq b.round_id req.round_id) (settle_round sys req)
                      s.virtual_bets;
              })
          return (record { success = false; completed = true }))
        (return (record { success = false; completed = false }))
