-- ===== src/Listing/Tests.antt =====
-- The lists of bets at the samples.
use betting_service.Prelude.{
  ==_self, ℕ, ◌==◌, ◌≡◌, ◌≤◌, refl, true, arith, [], ◌∷◌, map, length, none,
}
use betting_service.Int.{pos, negsuc}
use mathlib.Core.List.{Perm}
use betting_service.Store.{Store, ok, credit}
use betting_service.Table.{
  newest_first, insert_newest, All, select_where, update_where, exists_where, find_where,
  count_where,
}
use betting_service.History.{page_size, page_of, offset_of}
use betting_service.Cashout.{
  cashout_winning, process_cashout, successful, cashout_payload, cash_bet,
}
use betting_service.Cashout.{get_probability, is_match}
use betting_service.Listing.{
  tally_of, tally_slips, tally_slip, list_bets, rows_of, HistoryRequest, HistoryResponse,
  has_status, find_all, find_with, where_of, response_of, matches, list_bet, all_of,
}
use betting_service.Listing.Wanted.{Meets}
use betting_service.Listing.Found.{IsNewestFirst, find_all-Meets, find_all_complete}
use betting_service.Cashout.Offer.{has_lost}
use betting_service.Listing.Offer.{process_cashout-listed}
use betting_service.Entity.Bet.{Bet}
use betting_service.Samples.{running, store, open_bet, slip}

abbrev pending_bets : HistoryRequest
pending_bets = record {
  user_id = 0;
  client_id = open_bet.client_id;
  from = none;
  to = none;
  status = has_status (pos 0);
  page = 1;
  per_page = 0;
  betslip_id = "";
  username = "";
}

-- The bet 8 with one open slip at odds of 2.00.
abbrev open_store : Store ℕ
open_store = record store {
  slips = record slip { id = 80; bet_id = 8; won = negsuc 0 } ∷ store.slips;
}

abbrev listed : HistoryResponse ℕ
listed = response_of running pending_bets open_store

listed_all : find_all running pending_bets open_store ≡ ok listed
unfolding find_all find_with where_of
listed_all = refl

-- Both open bets are listed.
listed_bets : map (λ l. l.bet.id) listed.bets ≡ 7 ∷ 8 ∷ []
unfolding response_of list_bets list_bet rows_of select_where count_where matches where_of all_of
    newest_first insert_newest page_of offset_of
listed_bets = refl

find_all-Meets_example :
    All (λ l. Meets pending_bets l.bet) listed.bets
    × IsNewestFirst listed.bets
    × (length listed.bets ≤ page_size 0)
    × (listed.total_records ≡ length (select_where (matches pending_bets) open_store.bets))
find_all-Meets_example = find_all-Meets running pending_bets open_store listed listed_all

find_all_complete_example :
    Perm (map (λ l. l.bet) listed.bets) (select_where (matches pending_bets) open_store.bets)
    × ((b : Bet ℕ) → Meets pending_bets b → matches pending_bets b ≡ true)
unfolding select_where matches where_of all_of response_of count_where
find_all_complete_example =
    find_all_complete running pending_bets open_store listed listed_all refl (omega arith)
      (omega arith)

process_cashout-listed_example :
    let amount = (list_bet running open_store open_bet).cash_out_amount in
    let (r, t) = process_cashout running 8 amount open_store in
    (r ≡ ok (successful 5000))
    × (t.sent ≡ credit (cashout_payload amount open_bet) ∷ [])
    × (t.winnings ≡ record (cashout_winning 8 amount open_bet) { id = 1 } ∷ [])
    × (t.bets ≡ update_where (λ b. b.id == 8) (cash_bet amount) open_store.bets)
    × (t.slips ≡ open_store.slips)
unfolding find_where select_where exists_where tally_of tally_slips tally_slip get_probability
    is_match has_lost
process_cashout-listed_example =
    process_cashout-listed running open_bet open_store refl refl refl 5000 refl
      (==_self (list_bet running open_store open_bet).cash_out_amount) refl refl refl refl
