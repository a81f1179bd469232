-- ===== src/Ledger.antt =====
-- What the service owes to its bets, without the columns that its handlers write: the specification
-- that all of them implement. It models no code; `view` reads it off the database and the calls made.
pub mod Rules
pub mod Laws
use betting_service.Prelude.{
  ℕ, suc, ◌+◌, ◌==◌, ◌≡◌, String, Bool, true, false, List, [], ◌∷◌, ◌++◌, Option, map,
  if◌then◌else◌,
}
use betting_service.Table.{exists_where}
use betting_service.Entity.Bet.{Bet}
use betting_service.Store.{
  Store, Event, credit, debit, settle_bonus, place_bonus, submit, Subject, sport_win,
  sport_win_cashout, check_bonus,
}

-- The columns of a bet that say whose it is and what was paid for it.
pub record Account (N : Type 0) : Type 0 where
  pub id : ℕ
  pub client_id : ℕ
  pub user_id : ℕ
  pub bonus_id : Option ℕ
  pub username : String
  pub betslip_id : String
  pub stake : N
  pub currency : String
  pub source : String
  pub created : ℕ

-- The bets, the bets with a recorded winning, and the number of winnings that were credited.
pub record Ledger (N : Type 0) : Type 0 where
  pub accounts : List (Account N)
  pub recorded : List ℕ
  pub paid : ℕ

abbrev pub is_win : Subject → Bool
is_win sport_win = true
is_win sport_win_cashout = true
is_win s = false

abbrev pub is_recorded : ℕ → List ℕ → Bool
is_recorded id = exists_where (λ x. x == id)

module _ {N : Type 0} where
  abbrev pub account : Bet N → Account N
  account b = record {
    id = b.id;
    client_id = b.client_id;
    user_id = b.user_id;
    bonus_id = b.bonus_id;
    username = b.username;
    betslip_id = b.betslip_id;
    stake = b.stake;
    currency = b.currency;
    source = b.source;
    created = b.created;
  }

  -- The credits of winnings and of cash-outs.
  abbrev pub wins : List (Event N) → ℕ
  wins [] = 0
  wins (credit p ∷ es) = if is_win p.subject then suc (wins es) else wins es
  wins (debit p ∷ es) = wins es
  wins (settle_bonus q ∷ es) = wins es
  wins (place_bonus q ∷ es) = wins es
  wins (submit q ∷ es) = wins es
  wins (check_bonus c u stake ∷ es) = wins es

  abbrev pub view : Store N → Ledger N
  view s = record {
    accounts = map account s.bets;
    recorded = map (λ w. w.bet_id) s.winnings;
    paid = wins s.sent;
  }

  -- A bet is opened; or a winning of a bet that has none is recorded, and is credited at most once.
  pub data Step : Ledger N → Ledger N → Type 0 where
    open_bet :
        (l : Ledger N) (a : Account N) → Step l (record l { accounts = l.accounts ++ a ∷ [] })
    record_win :
        (l : Ledger N) (id : ℕ)
        → is_recorded id l.recorded ≡ false
        → Step l (record l { recorded = id ∷ l.recorded })
    pay_win :
        (l : Ledger N) (id : ℕ)
        → is_recorded id l.recorded ≡ false
        → Step l (record l { recorded = id ∷ l.recorded; paid = suc l.paid })

  pub data Steps (l : Ledger N) : Ledger N → Type 0 where
    here : Steps l l
    next : {m n : Ledger N} → Steps l m → Step m n → Steps l n
