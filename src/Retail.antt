-- ===== src/Retail.antt =====
-- The bets of the users of an agent: `agentBets` of src/bets/retail.service.ts. A bet is the entity, of
-- which the query selects some columns; its `winnings`, a column that the query does not select, is
-- left out. A time is a number.
pub mod Pages
pub mod Counts
mod Tests
use betting_service.Prelude.{
  ℕ, zero, suc, ◌+◌, ◌-◌, ◌*◌, ◌==◌, ltb, leb, Bool, true, false, not, ◌&&◌, ◌||◌, if◌then◌else◌,
  String, str_eq, List, [], ◌∷◌, map, take, drop, Option, none, some,
}
use betting_service.Int.{ℤ, pos, ◌=ℤ◌, bet_pending, bet_won}
use betting_service.Floats.{Floats}
use betting_service.Table.{select_where, count_where, newest_first}
use betting_service.Entity.Bet.{Bet}
use betting_service.Store.{Store, System, Result, ok, thrown, selects_slips}
use betting_service.History.{Pager, page_size, StatusText, listed_status}
use betting_service.Listing.{
  StatusFilter, any_status, settled, has_status, Selection, selection_of, total_stake_of,
}
use betting_service.Reports.{total_winnings_of}
use betting_service.Reports.Games.{is_among, pager_of, fetch_user_ids}

-- BetHistoryRequest, as `agentBets` reads it: a `status` of '' or 'all' is no filter.
pub record AgentRequest : Type 0 where
  pub client_id : ℕ
  pub from : ℕ
  pub to : ℕ
  pub status : StatusFilter
  -- '' for all
  pub betslip_id : String
  pub page : ℕ
  pub per_page : ℕ

pub record AgentTicket (N : Type 0) : Type 0 where
  pub bet : Bet N
  pub status : Option StatusText
  pub selections : List (Selection N)
  pub cash_out_amount : N
  pub pending_games : ℕ

-- `meta`; a division by a page size that is not given has no pager.
pub record Meta : Type 0 where
  pub page : ℕ
  pub per_page : ℕ
  pub total : ℕ
  pub pager : Option Pager

-- `respData`; the sum of no rows is null.
pub record AgentBets (N : Type 0) : Type 0 where
  pub tickets : List (AgentTicket N)
  pub total_sales : Option N
  pub total_won : Option N
  pub total_cancelled : ℕ
  pub total_sales_no : ℕ
  pub total_cancelled_no : ℕ
  pub total_won_no : ℕ
  pub total_running_no : ℕ
  pub meta : Option Meta

abbrev pub in_status : StatusFilter → ℤ → Bool
in_status any_status status = true
in_status settled status = not (status =ℤ pos 0)
in_status (has_status wanted) status = status =ℤ wanted

-- The parameter `status` is bound anew in the query that counts the running bets: the filter compares
-- with that value too.
abbrev pub runs_in : StatusFilter → ℤ → Bool
runs_in settled status = not (status =ℤ bet_pending) && (status =ℤ bet_pending)
runs_in f status = status =ℤ bet_pending

-- `.limit(limit).offset(offset)`
abbrev pub agent_page {ℓ} : {A : Type ℓ} → (limit page : ℕ) → List A → List A
agent_page limit page rows =
    take limit (drop (if ltb 1 page then (page - 1) * limit + 1 else 0) rows)

module _ {N : Type 0} where
  -- The conditions but that on the status.
  unfoldable pub of_agent : List ℕ → AgentRequest → Bet N → Bool
  of_agent users q b =
      (b.client_id == q.client_id)
      && is_among users b.user_id
      && (b.info.is_booked == 0)
      && leb q.from b.created
      && leb b.created q.to
      && (str_eq q.betslip_id "" || str_eq b.betslip_id q.betslip_id)

  unfoldable pub agent_rows : List ℕ → AgentRequest → Store N → List (Bet N)
  agent_rows users q s =
      select_where (λ b. of_agent users q b && in_status q.status b.status) s.bets

  unfoldable pub agent_ticket : Floats N → Store N → Bet N → AgentTicket N
  agent_ticket floats s bet = record {
    bet = bet;
    status = listed_status bet.status;
    selections = map selection_of (select_where (λ b. b.bet_id == bet.id) s.slips);
    cash_out_amount = floats.zero_num;
    pending_games = count_where (λ b. (b.bet_id == bet.id) && (b.status =ℤ bet_pending)) s.slips;
  }

  -- A bet whose slips cannot be read is left out.
  unfoldable pub agent_tickets : System N → Store N → List (Bet N) → List (AgentTicket N)
  agent_tickets sys s [] = []
  agent_tickets sys s (b ∷ bs) =
      if sys.fails selects_slips
      then agent_tickets sys s bs
      else agent_ticket sys.floats s b ∷ agent_tickets sys s bs

  abbrev pub no_bets : Floats N → AgentBets N
  no_bets floats = record {
    tickets = [];
    total_sales = some floats.zero_num;
    total_won = some floats.zero_num;
    total_cancelled = 0;
    total_sales_no = 0;
    total_cancelled_no = 0;
    total_won_no = 0;
    total_running_no = 0;
    meta = none;
  }

  unfoldable pub bets_of_users : System N → AgentRequest → Store N → List ℕ → AgentBets N
  bets_of_users sys q s [] = no_bets sys.floats
  bets_of_users sys q s (u ∷ us) =
      let users = u ∷ us in
      let rows = agent_rows users q s in
      let limit = page_size q.per_page in
      let total = count_where (λ b. of_agent users q b && in_status q.status b.status) s.bets in
      record (no_bets sys.floats) {
        tickets =
            agent_tickets sys s (agent_page limit q.page (newest_first (λ b. b.created) rows));
        total_sales = total_stake_of sys.floats rows;
        total_won = total_winnings_of sys.floats s rows;
        total_won_no =
            count_where
              (λ b. of_agent users q b && in_status q.status b.status && (b.won =ℤ bet_won)) s.bets;
        total_running_no =
            count_where (λ b. of_agent users q b && runs_in q.status b.status) s.bets;
        meta = some (record {
          page = q.page;
          per_page = limit;
          total = total;
          pager = pager_of total q.page q.per_page;
        });
      }

  -- `none` is the answer 'Unable to fetch betlist'.
  abbrev pub with_users : System N → AgentRequest → Store N → Result (List ℕ) → Option (AgentBets N)
  with_users sys q s (ok users) = some (bets_of_users sys q s users)
  with_users sys q s thrown = none

  unfoldable pub agent_bets :
      System N
      → (identity : Result (Option (List ℕ))) → AgentRequest
      → Store N
      → Option (AgentBets N)
  agent_bets sys identity q s = with_users sys q s (fetch_user_ids identity)
