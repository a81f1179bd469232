-- ===== src/Closing.antt =====
-- Paying out a winning bet: `closeBet` of src/cronjobs/workers/bet.resulting.service.ts and
-- `closeBet` of src/cronjobs/workers/bet.settlement.service.ts. They differ in the bets that they
-- take and in the columns that they write; from `new Winning()` on they are the same code.
mod Tests
pub mod Follows
pub mod Once
pub mod Payout
pub mod Returns
use betting_service.Prelude.{
  ℕ, suc, Bool, not, ◌&&◌, ◌||◌, ◌==◌, if◌then◌else◌, List, [], ◌∷◌, Option, none, some,
}
use betting_service.Int.{◌=ℤ◌, bet_pending, bet_won, bet_voided, status_won}
use betting_service.Table.{select_where, update_where, exists_where}
use betting_service.Entity.Bet.{Bet, is_bonus}
use betting_service.Entity.Records.{Winning}
use betting_service.Store.{
  Store, System, Payload, BonusReply, ok, thrown, Purse, sport, sport_bonus, sport_win, selects_bet,
  updates_bet, inserts_winning,
}
use betting_service.Store.Action.{
  Action, return, get, modify, ◌>>=◌, ◌>>◌, try_catch, statement, attempt, call_settle, call_credit,
}

-- The two workers that close bets, which the cron service starts independently.
pub data Worker : Type 0 where
  resulting settlement : Worker

module _ {N : Type 0} where
  -- `winningRepository.save`: the unique index on `bet_id` refuses a second row for a bet.
  unfoldable pub save_winning : Winning N → Action N (Winning N)
  save_winning w s =
      if exists_where (λ x. x.bet_id == w.bet_id) s.winnings
      then (thrown, s)
      else (ok saved, record s { winnings = saved ∷ s.winnings; next_winning = suc s.next_winning })
    where
      saved : Winning N
      saved = record w { id = s.next_winning }

  -- The new row; its `id` is given by `save_winning`.
  abbrev pub winning_of : ℕ → Bet N → Winning N
  winning_of bet_id row = record {
    id = 0;
    bet_id = bet_id;
    client_id = row.client_id;
    user_id = row.user_id;
    currency = row.currency;
    winning_before_tax = row.possible_win;
    tax_on_winning = row.tax_on_winning;
    winning_after_tax = row.winning_after_tax;
  }

  abbrev pub win_payload : Bet N → Purse → N → Payload N
  win_payload row wallet amount = record {
    subject = sport_win;
    amount = amount;
    user_id = row.user_id;
    username = some row.username;
    client_id = row.client_id;
    source = some row.source;
    betslip_id = some row.betslip_id;
    wallet = wallet;
  }

  -- A bonus bet pays what the bonus service says, and otherwise the winning without the stake.
  pub bonus_amount : System N → Bet N → BonusReply N → N
  bonus_amount sys row reply =
      if reply.success then reply.amount else sys.floats.sub row.winning_after_tax row.stake

  -- The last `try` of `closeBet`.
  pub credit_win : System N → ℕ → Bet N → Action N (Unit {0})
  credit_win sys bet_id row =
      if is_bonus row.bonus_id
      then (do
        reply ← call_settle sys (record {
          client_id = row.client_id;
          bet_id = bet_id;
          amount = row.winning_after_tax;
          status = bet_won;
        })
        _ ← call_credit sys (win_payload row sport_bonus (bonus_amount sys row reply))
        return tt)
      else (do _ ← call_credit sys (win_payload row sport row.winning_after_tax); return tt)

  pub after_save : System N → ℕ → Bet N → Option (Winning N) → Action N (Option ℕ)
  after_save sys bet_id row none = return none
  after_save sys bet_id row (some winner) =
      if winner.id == 0
      then return (some 0)
      else (try_catch (credit_win sys bet_id row) (return tt) >> return (some winner.id))

  -- `closeBet` from `new Winning()` on.
  pub pay_winning : System N → ℕ → Bet N → Action N (Option ℕ)
  pay_winning sys bet_id row = do
    saved ← attempt (statement sys inserts_winning (save_winning (winning_of bet_id row)))
    after_save sys bet_id row saved

  -- `status IN (0, 3) AND id NOT IN (SELECT bet_id FROM winning)`, for the bet `id`
  unfoldable pub is_payable : Store N → ℕ → Bet N → Bool
  is_payable s id b =
      (b.id == id)
      && ((b.status =ℤ bet_pending) || (b.status =ℤ bet_voided))
      && not (exists_where (λ w. w.bet_id == b.id) s.winnings)

  pub after_update : System N → ℕ → Bet N → Option (Unit {0}) → Action N (Option ℕ)
  after_update sys id row none = return none
  after_update sys id row (some _) = pay_winning sys id row

  -- `rows[0]`, if the query did not throw and has a row.
  pub after_select : System N → ℕ → (Bet N → Bet N) → Option (List (Bet N)) → Action N (Option ℕ)
  after_select sys id write none = return none
  after_select sys id write (some []) = return (some 0)
  after_select sys id write (some (row ∷ _)) = do
    written ← attempt (
        statement sys updates_bet
          (modify (λ s. record s { bets = update_where (λ b. b.id == id) write s.bets })))
    after_update sys id row written

  pub close_selected :
      System N → ℕ → (Store N → Bet N → Bool) → (Bet N → Bet N) → Action N (Option ℕ)
  close_selected sys id eligible write = do
    rows ← attempt (statement sys selects_bet (get (λ s. select_where (eligible s) s.bets)))
    after_select sys id write rows

  -- BetResultingService takes the bets that are marked as won, and writes the status.
  pub is_payable_won : ℕ → Store N → Bet N → Bool
  is_payable_won id s b = (b.won =ℤ status_won) && is_payable s id b

  abbrev pub mark_won : System N → Bet N → Bet N
  mark_won sys b = record b { status = bet_won; settled_at = some sys.now }

  pub close_won_bet : System N → ℕ → Action N (Option ℕ)
  close_won_bet sys id = close_selected sys id (is_payable_won id) (mark_won sys)

  -- BetSettlementService takes the bet whatever its `won` is, and sets that too.
  abbrev pub mark_won_by_slips : System N → Bet N → Bet N
  mark_won_by_slips sys b = record b {
    won = status_won;
    status = bet_won;
    settled_at = some sys.now;
    settlement_type = "secondary_automation";
  }

  pub close_bet : System N → ℕ → Action N (Option ℕ)
  close_bet sys id = close_selected sys id (λ s. is_payable s id) (mark_won_by_slips sys)

  abbrev pub takes : Worker → ℕ → Store N → Bet N → Bool
  takes resulting id = is_payable_won id
  takes settlement id = λ s. is_payable s id

  abbrev pub marks : Worker → System N → Bet N → Bet N
  marks resulting = mark_won
  marks settlement = mark_won_by_slips

  -- `closeBet` of either worker.
  abbrev pub close : Worker → System N → ℕ → Action N (Option ℕ)
  close resulting = close_won_bet
  close settlement = close_bet
