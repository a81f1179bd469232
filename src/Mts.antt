-- ===== src/Mts.antt =====
-- The replies of the betting risk service (MTS) to a placed bet, and its silence:
-- src/consumers/workers/mts.bet.accepted.service.ts, src/consumers/workers/mts.bet.cancelled.service.ts
-- and src/cronjobs/workers/mts.timeout.service.ts.
pub mod Follows
mod Tests
pub mod Once
pub mod Refund
pub mod Backed
use betting_service.Prelude.{
  ℕ, ◌+◌, ◌-◌, Bool, not, ◌&&◌, ◌||◌, ◌==◌, ltb, leb, if◌then◌else◌, List, [], ◌∷◌, ◌++◌, Option,
  none, some, length, take, codes,
}
use betting_service.Int.{
  ℤ, pos, negsuc, ◌=ℤ◌, bet_pending, bet_cancelled, bet_won, status_not_lost_or_won,
}
use betting_service.Table.{select_where, update_where, exists_where, find_where, count_where}
use betting_service.Entity.Bet.{Bet, is_bonus}
use betting_service.Entity.Slip.{BetSlip}
use betting_service.Entity.Records.{BetStatus}
use betting_service.Store.{
  Store, System, Subject, Purse, Payload, sport, sport_bonus, bet_rejected_mts,
  bet_cancelled_mts_timeout, retract_cashout,
}
use betting_service.Store.Action.{
  Action, return, throw, get, modify, ◌>>=◌, ◌>>◌, when, for_each, call_settle, call_credit,
  call_debit,
}
use betting_service.Cron.{exclusively}

-- `reason` is cut to fit the column.
pub shorten : List ℕ → List ℕ
shorten reason = if ltb 300 (length reason) then take 290 reason ++ codes "..." else reason

module _ {N : Type 0} where
  abbrev pub has_status : ℕ → Store N → Bool
  has_status id s = exists_where (λ x. x.bet_id == id) s.statuses

  -- `betStatusRepository.save`: the unique index on `bet_id` refuses a second row for a bet.
  pub save_status : BetStatus → Action N (Unit {0})
  save_status st = do
    taken ← get (has_status st.bet_id)
    if taken then throw else modify (λ s. record s { statuses = st ∷ s.statuses })

  -- `betStatusRepository.upsert`
  pub upsert_status : BetStatus → Store N → Store N
  upsert_status st s =
      if has_status st.bet_id s
      then record s {
        statuses =
            update_where (λ x. x.bet_id == st.bet_id)
              (λ x. record x { status = st.status; description = st.description }) s.statuses;
      }
      else record s { statuses = st ∷ s.statuses }

  pub process_bet_accepted : ℕ → Action N ℕ
  process_bet_accepted bet_id = do
    modify (
        upsert_status
          (record { bet_id = bet_id; status = pos 1; description = codes "Bet accepted by MTS" }))
    return 1

  abbrev pub stake_payload : Subject → Bet N → Purse → Payload N
  stake_payload subject bet wallet = record {
    subject = subject;
    amount = bet.stake;
    user_id = bet.user_id;
    username = some bet.username;
    client_id = bet.client_id;
    source = some bet.source;
    betslip_id = some bet.betslip_id;
    wallet = wallet;
  }

  -- The stake goes back; of a bonus bet the bonus service is told first.
  pub refund : System N → Subject → Option (Bet N) → Action N (Unit {0})
  refund sys subject none = throw
  refund sys subject (some bet) =
      if is_bonus bet.bonus_id
      then (do
        _ ← call_settle sys (record {
          client_id = bet.client_id;
          bet_id = bet.id;
          amount = sys.floats.zero_num;
          status = bet_cancelled;
        })
        _ ← call_credit sys (stake_payload subject bet sport_bonus)
        return tt)
      else (do _ ← call_credit sys (stake_payload subject bet sport); return tt)

  abbrev pub cancel_slip : BetSlip N → BetSlip N
  cancel_slip b = record b { status = bet_cancelled; won = status_not_lost_or_won }

  abbrev pub reject_bet : Bet N → Bet N
  reject_bet b = record b { status = bet_cancelled; won = status_not_lost_or_won }

  pub revert : System N → ℕ → Action N (Unit {0})
  revert sys bet_id = do
    modify λ s. record s { slips = update_where (λ b. b.bet_id == bet_id) cancel_slip s.slips }
    modify λ s. record s { bets = update_where (λ b. b.id == bet_id) reject_bet s.bets }
    bet ← get (λ s. find_where (λ b. b.id == bet_id) s.bets)
    refund sys bet_rejected_mts bet

  pub reject : System N → ℕ → List ℕ → Action N (Unit {0})
  reject sys bet_id reason =
      save_status (record { bet_id = bet_id; status = bet_cancelled; description = shorten reason })
      >> revert sys bet_id

  pub process_bet_rejected : System N → ℕ → List ℕ → Action N ℕ
  process_bet_rejected sys bet_id reason = do
    known ← get (has_status bet_id)
    when (not known) (reject sys bet_id reason)
    return 1

  -- The bets of the last three minutes that have waited more than 30 seconds for an answer.
  pub is_timed_out : System N → Store N → Bet N → Bool
  is_timed_out sys s b =
      not (has_status b.id s)
      && ltb 30 (sys.time - b.created)
      && (leb sys.time (b.created + 180) && leb b.created sys.time)

  pub live_slips : ℕ → Store N → ℕ
  live_slips id s =
      count_where (λ b. (b.bet_id == id) && ((b.producer_id == 1) || (b.producer_id == 4))) s.slips

  abbrev pub winning_payload : Bet N → Payload N
  winning_payload row = record {
    subject = retract_cashout;
    amount = row.winning_after_tax;
    user_id = row.user_id;
    username = none;
    client_id = row.client_id;
    source = some row.source;
    betslip_id = none;
    wallet = sport;
  }

  abbrev pub cancel_bet : System N → Bet N → Bet N
  cancel_bet sys b = record b {
    status = bet_cancelled;
    settled_at = some sys.now;
    settlement_type = "mts";
  }

  -- `won` is compared with the code of a status.
  pub debit_paid : System N → Bet N → Action N (Unit {0})
  debit_paid sys row =
      when (row.won =ℤ bet_won) (do _ ← call_debit sys (winning_payload row); return tt)

  pub cancel_unanswered : System N → Bet N → Action N (Unit {0})
  cancel_unanswered sys row = do
    modify λ s. record s {
      bets =
          update_where (λ b. (b.id == row.id) && (b.status =ℤ bet_pending)) (cancel_bet sys) s.bets;
    }
    modify λ s. record s {
      slips =
          update_where (λ b. (b.bet_id == row.id) && (b.status =ℤ bet_pending)) cancel_slip s.slips;
    }
    bet ← get (λ s. find_where (λ b. b.id == row.id) s.bets)
    refund sys bet_cancelled_mts_timeout bet

  pub retract : System N → Bet N → Action N (Unit {0})
  retract sys row = debit_paid sys row >> cancel_unanswered sys row

  pub time_out : System N → Bet N → Action N (Unit {0})
  time_out sys row =
      save_status (record {
        bet_id = row.id;
        status = negsuc 0;
        description = codes "Bet Cancelled - MTS Timeout";
      })
      >> retract sys row

  pub time_out_row : System N → Bet N → Action N (Unit {0})
  time_out_row sys row = do
    live ← get (live_slips row.id)
    if ltb 0 live && ltb (sys.time - row.created) 16 then return tt else time_out sys row

  pub cancel_timed_out : System N → Action N (Unit {0})
  cancel_timed_out sys = do
    rows ← get (λ s. select_where (is_timed_out sys s) s.bets)
    for_each rows (time_out_row sys)

  pub task_mts_timeout : System N → Action N (Unit {0})
  task_mts_timeout sys = exclusively "mts.timeout" (cancel_timed_out sys)
