-- ===== src/Settling.antt =====
-- Settling the bets on a settled outcome: `createBetSettlement` and `resultBet` of
-- src/cronjobs/workers/bet.settlement.service.ts.
pub mod Follows
pub mod Counts
pub mod Verdicts
pub mod Tallied
pub mod Tasks
pub mod Unsettled
mod Tests
use betting_service.Prelude.{
  ℕ, suc, ◌+◌, String, Bool, true, false, ◌&&◌, ◌||◌, ◌==◌, ltb, if◌then◌else◌, List, [], ◌∷◌, ◌++◌,
  map, Option, none, some, not,
}
use betting_service.Int.{
  ℤ, pos, ◌=ℤ◌, status_not_lost_or_won, status_won, status_lost, bet_pending, bet_lost, bet_won,
  bet_voided, betslip_processing_settled, betslip_processing_completed, betslip_processing_voided,
  betslip_processing_cancelled,
}
use betting_service.Floats.{Floats}
use betting_service.Table.{select_where, update_where, exists_where, find_where}
use betting_service.Entity.Bet.{Bet, is_bonus}
use betting_service.Entity.Slip.{BetSlip}
use betting_service.Entity.Records.{Settlement, Setting, BetClosure}
use betting_service.Store.{Store, System}
use betting_service.Store.Action.{
  Action, return, throw, get, modify, ◌>>=◌, ◌>>◌, when, for_each, call_settle,
}
use Counts.{Count, num, is_zero, is_positive, same_count, Recount, no_rows, recount_row}

-- `currentBetSlip`, the fields that `resultBet` reads.
pub record CurrentSlip (N : Type 0) : Type 0 where
  pub id : ℕ
  pub void_factor : Option N
  pub odd : N

-- A row of the bets with the counters that the handler adds to it.
pub record Tally (N : Type 0) : Type 0 where
  pub bet : Bet N
  pub won : Count
  pub lost : Count
  pub pending : Count
  pub cancelled : Count
  pub voided : Count
  pub total_games : Count
  pub slips : List (CurrentSlip N)

-- The amounts of a bet after a slip at odds `odd` is void.
pub record Recalculated (N : Type 0) : Type 0 where
  pub new_odds : N
  pub net_win : N
  pub tax : N
  pub possible_win : N

pub data Verdict : Type 0 where
  won lost pending : Verdict

abbrev pub is_won : Verdict → Bool
is_won won = true
is_won v = false

abbrev pub bump : Bool → Count → Count
bump true (num n) = num (suc n)
bump true Count.nan = Count.nan
bump false c = c

abbrev pub is_settled_by : ℕ → Option ℕ → Bool
is_settled_by id none = false
is_settled_by id (some k) = k == id

module _ {N : Type 0} where
  -- `void_factor > 0`, where null is NaN
  pub is_void : Floats N → Option N → Bool
  is_void floats none = false
  is_void floats (some factor) = floats.less floats.zero_num factor

  -- The accepted bets with no result that have a slip of the settlement.
  pub is_settleable : Settlement N → Store N → Bet N → Bool
  is_settleable st s b =
      ((b.status =ℤ pos 0) || (b.status =ℤ pos 1))
      && (b.won =ℤ status_not_lost_or_won)
      && exists_where (λ x. (x.bet_id == b.id) && (x.status =ℤ pos 1)) s.statuses
      && exists_where (λ x. (x.bet_id == b.id) && is_settled_by st.id x.settlement_id) s.slips

  abbrev pub start_tally : Bet N → Tally N
  start_tally b = record {
    bet = b;
    won = num 0;
    lost = num 0;
    pending = num 0;
    cancelled = num 0;
    voided = num 0;
    total_games = num b.total_bets;
    slips = [];
  }

  -- One slip, added to the row of its bet.
  pub tally_slip : Floats N → BetSlip N → Tally N → Tally N
  tally_slip floats b t =
      if t.bet.id == b.bet_id
      then record t {
        won = bump (b.won =ℤ status_won) t.won;
        lost = bump (not (b.won =ℤ status_not_lost_or_won) && not (b.won =ℤ status_won)) t.lost;
        pending = bump (b.won =ℤ status_not_lost_or_won) t.pending;
        cancelled = bump (b.status =ℤ betslip_processing_cancelled) t.cancelled;
        voided = bump (is_void floats b.void_factor) t.voided;
        slips = t.slips ++ record { id = b.id; void_factor = b.void_factor; odd = b.odds } ∷ [];
      }
      else t

  pub tally_slips : Floats N → List (BetSlip N) → List (Tally N) → List (Tally N)
  tally_slips floats [] ts = ts
  tally_slips floats (b ∷ bs) ts = tally_slips floats bs (map (tally_slip floats b) ts)

  -- The columns that `resultBet` writes into a slip. `scores.htScores` does not exist, so `ht_score`
  -- is not written.
  abbrev pub void_slip : System N → Option String → N → BetSlip N → BetSlip N
  void_slip sys ft_score factor b = record b {
    odds = factor;
    won = status_not_lost_or_won;
    status = betslip_processing_voided;
    score = ft_score;
    settled_at = some sys.now;
    settlement_type = some "betradar";
  }

  abbrev pub complete_slip : System N → Option String → BetSlip N → BetSlip N
  complete_slip sys ft_score b = record b {
    status = betslip_processing_completed;
    score = ft_score;
    settled_at = some sys.now;
    settlement_type = some "betradar";
  }

  pub recalculate :
      Floats N → Setting N → (total_odd odd factor stake_after_tax : N) → Recalculated N
  recalculate floats setting total_odd odd factor stake_after_tax =
      let new_odds = mul (div total_odd odd) factor in
      let net_win = mul new_odds stake_after_tax in
      let profit = sub net_win stake_after_tax in
      let tax = mul profit (div setting.tax_on_winning (of_ℕ 100)) in
      let possible_win = sub net_win tax in
      record {
        new_odds = new_odds;
        net_win = net_win;
        tax = tax;
        possible_win =
            if less setting.maximum_winning possible_win
            then setting.maximum_winning
            else possible_win;
      }
    where
      open floats use {mul, div, sub, less, of_ℕ}

  abbrev pub write_amounts : Recalculated N → Bet N → Bet N
  write_amounts r b = record b {
    possible_win = r.possible_win;
    winning_after_tax = r.net_win;
    tax_on_winning = r.tax;
    total_odd = r.new_odds;
  }

  pub in_settled : CurrentSlip N → BetSlip N → Bool
  in_settled c b = (b.id == c.id) && (b.status =ℤ betslip_processing_settled)

  pub write_recalculated :
      System N → Option (Setting N) → Tally N → (total_odd factor : N) → CurrentSlip N → Action N N
  write_recalculated sys none t total_odd factor c = throw
  write_recalculated sys (some setting) t total_odd factor c =
      let r = recalculate sys.floats setting total_odd c.odd factor t.bet.stake_after_tax in
      modify
        (λ s. record s { bets = update_where (λ b. b.id == t.bet.id) (write_amounts r) s.bets })
      >> return r.new_odds

  -- One void slip: it is written, and then the amounts of the bet, from the odds so far. Reading the
  -- tax of a client without a setting throws.
  pub process_void :
      System N
      → Option (Setting N)
      → Option String
      → Tally N
      → (total_odd factor : N) → CurrentSlip N
      → Action N N
  process_void sys setting ft_score t total_odd factor c =
      modify (λ s. record s {
        slips = update_where (in_settled c) (void_slip sys ft_score factor) s.slips;
      })
      >> write_recalculated sys setting t total_odd factor c

  pub void_of : Floats N → Option N → Option N
  void_of floats none = none
  void_of floats (some factor) = if floats.less floats.zero_num factor then some factor else none

  -- The loop over the slips of a bet; its result is `hasVoidedSlip`.
  pub process_slips :
      System N
      → Option (Setting N)
      → Option String
      → Tally N
      → (total_odd : N) → (has_void : Bool) → List (CurrentSlip N)
      → Action N Bool
  process_slips sys setting ft_score t total_odd has_void [] = return has_void
  process_slips sys setting ft_score t total_odd has_void (c ∷ cs) =
      elim (void_of sys.floats c.void_factor) [
        | some factor ↦ process_void sys setting ft_score t total_odd factor c >>= λ odds.
            process_slips sys setting ft_score t odds true cs
        | none ↦
            modify (λ s. record s {
              slips = update_where (in_settled c) (complete_slip sys ft_score) s.slips;
            })
            >> process_slips sys setting ft_score t total_odd has_void cs
      ]

  pub recount : List (BetSlip N) → Recount → Recount
  recount [] r = r
  recount (b ∷ bs) r = recount bs (recount_row b.status b.won r)

  abbrev pub with_recount : Recount → Tally N → Tally N
  with_recount r t = record t {
    won = r.won;
    lost = r.lost;
    pending = r.pending;
    cancelled = r.cancelled;
    total_games = r.games;
  }

  -- The counters from the rows of the slips, if one of them was void.
  pub refresh : Bool → Tally N → Action N (Tally N)
  refresh true t =
      get λ s. with_recount (recount (select_where (λ b. b.bet_id == t.bet.id) s.slips) no_rows) t
  refresh false t = return t

  abbrev pub all_void : Tally N → Bool
  all_void t = is_positive t.voided && same_count t.voided t.total_games

  abbrev pub write_verdict : System N → ℤ → ℤ → Bet N → Bet N
  write_verdict sys outcome status b = record b {
    won = outcome;
    status = status;
    settled_at = some sys.now;
    settlement_type = "secondary_automation";
  }

  pub conclude : System N → Tally N → (outcome status verdict : ℤ) → Action N (Unit {0})
  conclude sys t outcome status verdict =
      modify (λ s. record s {
        bets = update_where (λ b. b.id == t.bet.id) (write_verdict sys outcome status) s.bets;
      })
      >> when (is_bonus t.bet.bonus_id) (do
        _ ← call_settle sys (record {
          client_id = t.bet.client_id;
          bet_id = t.bet.id;
          amount = sys.floats.zero_num;
          status = verdict;
        })
        return tt)

  pub verdict_of : Tally N → Verdict
  verdict_of t =
      if is_zero t.lost && is_zero t.pending && same_count t.total_games t.won
      then won
      else (if is_positive t.lost then lost else pending)

  pub write : System N → Tally N → Verdict → Action N (Unit {0})
  write sys t won =
      conclude sys t status_won (if all_void t then bet_voided else bet_pending) bet_won
  write sys t lost =
      conclude sys t status_lost (if all_void t then bet_voided else bet_lost) bet_lost
  write sys t pending = return tt

  pub result_bet : System N → Option (Setting N) → Option String → Tally N → Action N Verdict
  result_bet sys setting ft_score t = do
    has_void ← process_slips sys setting ft_score t t.bet.total_odd false t.slips
    counted ← refresh has_void t
    write sys counted (verdict_of counted)
    return (verdict_of counted)

  -- `betClosureRepository.upsert`, by the unique index on `bet_id`
  pub upsert_closure : ℕ → Store N → Store N
  upsert_closure id s =
      if exists_where (λ c. c.bet_id == id) s.closures
      then s
      else record s { closures = record { bet_id = id } ∷ s.closures }

  pub settle_tally : System N → Settlement N → Tally N → Action N (Unit {0})
  settle_tally sys st t = do
    setting ← get (λ s. find_where (λ x. x.client_id == t.bet.client_id) s.settings)
    verdict ← result_bet sys setting st.ft_score t
    when (is_won verdict) (modify (upsert_closure t.bet.id))

  pub create_bet_settlement : System N → Settlement N → Action N ℕ
  create_bet_settlement sys st = do
    bets ← get (λ s. select_where (is_settleable st s) s.bets)
    slips ← get (λ s. select_where (λ b. exists_where (λ x. x.id == b.bet_id) bets) s.slips)
    for_each (tally_slips sys.floats slips (map start_tally bets)) (settle_tally sys st)
    return 1
