-- ===== src/Reports.antt =====
-- Of src/bets/report.service.ts: `getSportsTickets`, whose query and pages are those of `findAll`
-- (src/bets/bets.service.ts), and `deletePlayerData`.
mod Tests
pub mod Same
pub mod Commission
pub mod Games
pub mod Gaming
pub mod Sales
use betting_service.Prelude.{
  ℕ, ◌+◌, ◌==◌, Bool, true, false, not, ◌&&◌, if◌then◌else◌, String, List, [], ◌∷◌, map, Option,
  none, some,
}
use betting_service.Int.{
  ℤ, pos, ◌=ℤ◌, bet_voided, bet_cancelled, status_lost, status_won, status_not_lost_or_won,
}
use betting_service.Floats.{Floats}
use betting_service.Table.{select_where, count_where, delete_where, exists_where}
use betting_service.Entity.Bet.{Bet}
use betting_service.Entity.Slip.{BetSlip}
use betting_service.Store.{Store, System, selects_slips}
use betting_service.History.{Pager, paginate_response, StatusText, listed_status}
use betting_service.Listing.{
  HistoryRequest, where_of, matches, rows_of, winnings_of, total_stake_of,
}

-- A selection of a ticket: the columns of the slip, `type` as `kind`, and its status.
pub record TicketSelection (N : Type 0) : Type 0 where
  pub slip : BetSlip N
  pub kind : String
  pub status : StatusText

pub record Ticket (N : Type 0) : Type 0 where
  pub bet : Bet N
  pub winnings : Option N
  pub status : Option StatusText
  pub selections : List (TicketSelection N)
  pub cash_out_amount : N

-- The tickets, the pages, and `totals`; the sum of no rows is null.
pub record TicketsReport (N : Type 0) : Type 0 where
  pub tickets : List (Ticket N)
  pub pager : Pager
  pub total_stake : Option N
  pub total_winnings : Option N

abbrev pub ticket_status : ℤ → StatusText
ticket_status won =
    if won =ℤ status_not_lost_or_won
    then record { description = "Pending"; code = 0 }
    else (if won =ℤ status_lost
        then record { description = "Lost"; code = 2 }
        else (if won =ℤ status_won
            then record { description = "Won"; code = 1 }
            else record { description = "Void"; code = 3 }))

module _ {N : Type 0} where
  unfoldable pub ticket_selection : BetSlip N → TicketSelection N
  ticket_selection b = record {
    slip = b;
    kind = if b.info.is_live == 1 then "live" else "pre";
    status = ticket_status b.won;
  }

  unfoldable pub ticket_of : Floats N → Store N → Bet N → Ticket N
  ticket_of floats s bet = record {
    bet = bet;
    winnings = winnings_of bet s;
    status = listed_status bet.status;
    selections = map ticket_selection (select_where (λ b. b.bet_id == bet.id) s.slips);
    cash_out_amount = floats.zero_num;
  }

  -- A bet whose slips cannot be read is left out.
  unfoldable pub tickets_of : System N → Store N → List (Bet N) → List (Ticket N)
  tickets_of sys s [] = []
  tickets_of sys s (b ∷ bs) =
      if sys.fails selects_slips
      then tickets_of sys s bs
      else ticket_of sys.floats s b ∷ tickets_of sys s bs

  -- The condition of the sums: neither cancelled nor voided.
  unfoldable pub counts : HistoryRequest → Bet N → Bool
  counts q b = matches q b && not (b.status =ℤ bet_cancelled) && not (b.status =ℤ bet_voided)

  -- SUM leaves out what is null.
  abbrev pub add_some : Floats N → Option N → Option N → Option N
  add_some floats none sum = sum
  add_some floats (some a) none = some a
  add_some floats (some a) (some sum) = some (floats.add a sum)

  unfoldable pub total_winnings_of : Floats N → Store N → List (Bet N) → Option N
  total_winnings_of floats s [] = none
  total_winnings_of floats s (b ∷ bs) =
      add_some floats (winnings_of b s) (total_winnings_of floats s bs)

  -- The pages are counted as pages of 100.
  unfoldable pub report_of : System N → HistoryRequest → Store N → TicketsReport N
  report_of sys q s = record {
    tickets = tickets_of sys s (rows_of q s);
    pager = paginate_response (count_where (matches q) s.bets) q.page 100;
    total_stake = total_stake_of sys.floats (select_where (counts q) s.bets);
    total_winnings = total_winnings_of sys.floats s (select_where (counts q) s.bets);
  }

  -- With no condition the query fails, as in `findAll`; `none` is the answer 'Something went wrong'.
  unfoldable pub report_with :
      System N → HistoryRequest → Store N → List (Bet N → Bool) → Option (TicketsReport N)
  report_with sys q s [] = none
  report_with sys q s (p ∷ ps) = some (report_of sys q s)

  unfoldable pub get_sports_tickets : System N → HistoryRequest → Store N → Option (TicketsReport N)
  get_sports_tickets sys q s = report_with sys q s (where_of q)

  -- DELETE b, bs FROM bet b JOIN bet_slip bs ON bs.bet_id = b.id WHERE b.user_id = ?
  unfoldable pub delete_player_data : (user_id : ℕ) → Store N → Store N
  delete_player_data user_id s = record s {
    bets =
        delete_where (λ b. (b.user_id == user_id) && exists_where (λ c. c.bet_id == b.id) s.slips)
          s.bets;
    slips =
        delete_where (λ c. exists_where (λ b. (b.user_id == user_id) && (b.id == c.bet_id)) s.bets)
          s.slips;
  }
