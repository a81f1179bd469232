-- ===== src/Virtual/Rounds.antt =====
-- Placing and finding a virtual bet (src/bets/virtual-bet.service.ts).
use betting_service.Prelude.{◌++◌, [], ◌∷◌, suc}
use betting_service.Store.{Store, System}
use betting_service.Virtual.{PlaceVirtualBetRequest, virtual_bet_of}

module _ {N : Type 0} (sys : System N) where
  -- The store after the bet of a request is added.
  abbrev pub with_bet : PlaceVirtualBetRequest N → Store N → Store N
  with_bet req s = record s {
    virtual_bets = s.virtual_bets ++ virtual_bet_of sys req s.next_game_bet ∷ [];
    next_game_bet = suc s.next_game_bet;
  }
