-- ===== src/Listing.antt =====
-- The bets of a client: `findAll` and `findSingle` of src/bets/bets.service.ts, with the SQL that they
-- send read as selections of rows. A time is a number, as in the column `created`; rows of the same
-- time stand in the order of the table, which SQL does not promise. The tables have at most one
-- winning for a bet (a unique index), so that the LEFT JOIN has one row for each bet.
mod Tests
pub mod Wanted
pub mod Found
pub mod Offer
pub mod Refused
use betting_service.Prelude.{
  ℕ, zero, suc, ◌+◌, ◌-◌, ◌==◌, ltb, leb, Bool, true, false, not, ◌&&◌, if◌then◌else◌, String,
  str_eq, List, [], ◌∷◌, ◌++◌, map, take, drop, Option, none, some, option_map,
}
use betting_service.Int.{ℤ, pos, ◌=ℤ◌, bet_pending, status_lost, status_won, status_not_lost_or_won}
use betting_service.Floats.{Floats}
use betting_service.Table.{newest_first, select_where, count_where, find_where}
use betting_service.Entity.Bet.{Bet, is_bonus}
use betting_service.Entity.Slip.{BetSlip}
use betting_service.Store.{Store, System, Result, ok, thrown, selects_slips}
use betting_service.History.{Page, page_of, StatusText, listed_status, single_status}
use betting_service.Cashout.{may_cash_out, get_probability, calculate_cashout}

-- The `status` of a request: '', 'settled', or a number as a text.
pub data StatusFilter : Type 0 where
  any_status settled : StatusFilter
  has_status : ℤ → StatusFilter

-- BetHistoryRequest; a `from` or a `to` that is '' is `none`.
pub record HistoryRequest : Type 0 where
  pub user_id : ℕ
  pub client_id : ℕ
  pub from : Option ℕ
  pub to : Option ℕ
  pub status : StatusFilter
  pub page : ℕ
  pub per_page : ℕ
  pub betslip_id : String
  pub username : String

-- The description and the code of a slip; the `default` of the switch sets no description.
pub record SlipStatus : Type 0 where
  pub description : Option String
  pub code : ℕ

pub slip_status : ℤ → SlipStatus
slip_status won =
    if won =ℤ status_not_lost_or_won
    then record { description = some "Pending"; code = 0 }
    else (if won =ℤ status_lost
        then record { description = some "Lost"; code = 2 }
        else (if won =ℤ status_won
            then record { description = some "Won"; code = 1 }
            else record { description = none; code = 3 }))

-- A selection of the answer: the columns of the slip, `type` as `kind`, and its status.
pub record Selection (N : Type 0) : Type 0 where
  pub slip : BetSlip N
  pub kind : String
  pub status : SlipStatus

-- What the loop over the slips of a bet keeps.
pub record Tally (N : Type 0) : Type 0 where
  pub odds : N
  pub probability : N
  pub lost_games : ℕ

-- A bet of the answer: its columns, and what is set on it.
pub record ListedBet (N : Type 0) : Type 0 where
  pub bet : Bet N
  pub winnings : Option N
  pub status : Option StatusText
  pub selections : List (Selection N)
  pub cash_out_amount : N
  pub is_bonus_bet : Bool
  pub pending_games : ℕ

-- BetHistoryResponse; the sum of no stakes is null.
pub record HistoryResponse (N : Type 0) : Type 0 where
  pub bets : List (ListedBet N)
  pub page : Page
  pub total_records : ℕ
  pub total_stake : Option N

pub record SingleBet (N : Type 0) : Type 0 where
  pub bet : Bet N
  pub winnings : Option N
  pub status : Option StatusText
  pub selections : List (Selection N)

module _ {N : Type 0} where
  abbrev pub by_user : ℕ → List (Bet N → Bool)
  by_user user_id = if ltb 0 user_id then (λ b. b.user_id == user_id) ∷ [] else []

  abbrev pub by_status : StatusFilter → List (Bet N → Bool)
  by_status any_status = []
  by_status settled = (λ b. not (b.status =ℤ pos 0)) ∷ []
  by_status (has_status status) = (λ b. b.status =ℤ status) ∷ []

  abbrev pub by_from : Option ℕ → List (Bet N → Bool)
  by_from none = []
  by_from (some from) = (λ b. leb from b.created) ∷ []

  abbrev pub by_to : Option ℕ → List (Bet N → Bool)
  by_to none = []
  by_to (some to) = (λ b. leb b.created to) ∷ []

  abbrev pub by_text : (Bet N → String) → String → List (Bet N → Bool)
  by_text column text = if str_eq text "" then [] else (λ b. str_eq (column b) text) ∷ []

  -- `where`
  unfoldable pub where_of : HistoryRequest → List (Bet N → Bool)
  where_of q =
      by_user q.user_id
      ++ by_status q.status
      ++ by_from q.from
      ++ by_to q.to
      ++ by_text (λ b. b.betslip_id) q.betslip_id
      ++ by_text (λ b. b.username) q.username

  -- `where.join(' AND ')`
  unfoldable pub all_of : List (Bet N → Bool) → Bet N → Bool
  all_of [] b = true
  all_of (p ∷ ps) b = p b && all_of ps b

  -- The condition of the three queries.
  unfoldable pub matches : HistoryRequest → Bet N → Bool
  matches q b = (b.info.is_booked == 0) && (b.client_id == q.client_id) && all_of (where_of q) b

  unfoldable pub sum_stakes : Floats N → List (Bet N) → N
  sum_stakes floats [] = floats.zero_num
  sum_stakes floats (b ∷ bs) = floats.add b.stake (sum_stakes floats bs)

  unfoldable pub total_stake_of : Floats N → List (Bet N) → Option N
  total_stake_of floats [] = none
  total_stake_of floats (b ∷ bs) = some (sum_stakes floats (b ∷ bs))

  -- The rows of the page that is asked for: LIMIT.
  unfoldable pub rows_of : HistoryRequest → Store N → List (Bet N)
  rows_of q s =
      let rows = select_where (matches q) s.bets in
      let page = page_of (count_where (matches q) s.bets) q.per_page q.page in
      take page.size (drop page.offset (newest_first (λ b. b.created) rows))

  unfoldable pub selection_of : BetSlip N → Selection N
  selection_of b = record {
    slip = b;
    kind = if b.info.is_live == 1 then "live" else "pre";
    status = slip_status b.won;
  }

  unfoldable pub tally_slip : Floats N → Bet N → Tally N → BetSlip N → Tally N
  tally_slip floats bet t b =
      if b.won =ℤ status_lost
      then record t { probability = floats.zero_num; lost_games = suc t.lost_games }
      else (if (bet.status =ℤ bet_pending) && may_cash_out bet.bonus_id
          then record t {
            odds = floats.mul t.odds b.odds;
            probability = floats.mul t.probability (get_probability floats b.event_type b.odds);
          }
          else t)

  unfoldable pub tally_slips : Floats N → Bet N → Tally N → List (BetSlip N) → Tally N
  tally_slips floats bet t [] = t
  tally_slips floats bet t (b ∷ bs) = tally_slips floats bet (tally_slip floats bet t b) bs

  unfoldable pub tally_of : Floats N → Bet N → List (BetSlip N) → Tally N
  tally_of floats bet =
      tally_slips floats bet
        (record { odds = floats.one_num; probability = floats.one_num; lost_games = 0 })

  unfoldable pub winnings_of : Bet N → Store N → Option N
  winnings_of bet s =
      option_map (λ w. w.winning_after_tax) (find_where (λ w. w.bet_id == bet.id) s.winnings)

  -- `cashOutAmount`
  unfoldable pub listed_amount : Floats N → Bet N → Tally N → Store N → N
  listed_amount floats bet t s =
      if may_cash_out bet.bonus_id && (bet.status =ℤ bet_pending) && (t.lost_games == 0)
      then calculate_cashout floats s.ladders t.probability bet.probability bet.stake t.odds
      else floats.zero_num

  unfoldable pub list_bet : System N → Store N → Bet N → ListedBet N
  list_bet sys s bet =
      let slips = select_where (λ b. b.bet_id == bet.id) s.slips in
      record {
        bet = bet;
        winnings = winnings_of bet s;
        status = listed_status bet.status;
        selections = map selection_of slips;
        cash_out_amount = listed_amount sys.floats bet (tally_of sys.floats bet slips) s;
        is_bonus_bet = is_bonus bet.bonus_id;
        pending_games =
            count_where (λ b. (b.bet_id == bet.id) && (b.status =ℤ bet_pending)) s.slips;
      }

  -- A bet whose slips cannot be read is left out.
  unfoldable pub list_bets : System N → Store N → List (Bet N) → List (ListedBet N)
  list_bets sys s [] = []
  list_bets sys s (b ∷ bs) =
      if sys.fails selects_slips then list_bets sys s bs else list_bet sys s b ∷ list_bets sys s bs

  unfoldable pub response_of : System N → HistoryRequest → Store N → HistoryResponse N
  response_of sys q s =
      let total = count_where (matches q) s.bets in
      record {
        bets = list_bets sys s (rows_of q s);
        page = page_of total q.per_page q.page;
        total_records = total;
        total_stake = total_stake_of sys.floats (select_where (matches q) s.bets);
      }

  -- With no condition the query ends in `AND`, which the database refuses.
  unfoldable pub find_with :
      System N → HistoryRequest → Store N → List (Bet N → Bool) → Result (HistoryResponse N)
  find_with sys q s [] = thrown
  find_with sys q s (p ∷ ps) = ok (response_of sys q s)

  unfoldable pub find_all : System N → HistoryRequest → Store N → Result (HistoryResponse N)
  find_all sys q s = find_with sys q s (where_of q)

  -- `none` is the answer 'Betslip not found'.
  unfoldable pub single_bet : Store N → Option (Bet N) → Option (SingleBet N)
  single_bet s none = none
  single_bet s (some bet) = some (record {
    bet = bet;
    winnings = winnings_of bet s;
    status = single_status bet.status;
    selections = map selection_of (select_where (λ b. b.bet_id == bet.id) s.slips);
  })

  unfoldable pub find_single :
      (client_id : ℕ) → (betslip_id : String) → Store N → Option (SingleBet N)
  find_single client_id betslip_id s =
      single_bet s
        (find_where (λ b. str_eq b.betslip_id betslip_id && (b.client_id == client_id)) s.bets)
