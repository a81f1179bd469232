-- ===== src/Reports/Same.antt =====
-- `getSportsTickets` of src/bets/report.service.ts beside `findAll` of src/bets/bets.service.ts.
use betting_service.Prelude.{
  ◌≡◌, ◌⊎◌, refl, ap, List, [], ◌∷◌, map, none, some, Bool-cases, inl, inr, Bool,
}
use betting_service.Entity.Bet.{Bet}
use betting_service.Store.{Store, System, ok, thrown, selects_slips}
use betting_service.History.{paginate_response}
use betting_service.Listing.{
  winnings_of, HistoryRequest, HistoryResponse, find_all, find_with, where_of, response_of,
  list_bets, list_bet, rows_of,
}
use betting_service.Reports.{
  TicketsReport, get_sports_tickets, report_with, report_of, tickets_of, ticket_of,
}

module _ {N : Type 0} (sys : System N) (s : Store N) where
  same-bets :
      (bs : List (Bet N))
      → map (λ l. l.bet) (list_bets sys s bs) ≡ map (λ k. k.bet) (tickets_of sys s bs)
  unfolding list_bets tickets_of list_bet ticket_of
  same-bets [] = refl
  same-bets (b ∷ bs) = elim (Bool-cases (sys.fails selects_slips)) [
    | inl e ↦ rw e (same-bets bs)
    | inr e ↦ rw e (ap (λ cs. b ∷ cs) (same-bets bs))
  ]

  same-winnings :
      (bs : List (Bet N))
      → map (λ l. l.winnings) (list_bets sys s bs) ≡ map (λ k. k.winnings) (tickets_of sys s bs)
  unfolding list_bets tickets_of list_bet ticket_of
  same-winnings [] = refl
  same-winnings (b ∷ bs) = elim (Bool-cases (sys.fails selects_slips)) [
    | inl e ↦ rw e (same-winnings bs)
    | inr e ↦ rw e (ap (λ cs. winnings_of b s ∷ cs) (same-winnings bs))
  ]

  module _ (q : HistoryRequest) where
    report_with-cases :
        (ps : List (Bet N → Bool))
        → ((find_with sys q s ps ≡ thrown) × (report_with sys q s ps ≡ none))
          ⊎ ((r : HistoryResponse N) × (t : TicketsReport N) × (find_with sys q s ps ≡ ok r)
              × (report_with sys q s ps ≡ some t)
              × (map (λ l. l.bet) r.bets ≡ map (λ k. k.bet) t.tickets)
              × (map (λ l. l.winnings) r.bets ≡ map (λ k. k.winnings) t.tickets)
              × (r.total_records ≡ t.pager.count))
    unfolding find_with report_with response_of report_of paginate_response
    report_with-cases [] = inl (refl, refl)
    report_with-cases (p ∷ ps) = inr (
      response_of sys q s,
      report_of sys q s,
      refl,
      refl,
      same-bets (rows_of q s),
      same-winnings (rows_of q s),
      refl,
    )

    -- `getSportsTickets` fails exactly where `findAll` throws; else both answer with the same bets and
    -- the same winnings, in the same order, and with the same count.
    pub get_sports_tickets-find_all :
        ((find_all sys q s ≡ thrown) × (get_sports_tickets sys q s ≡ none))
        ⊎ ((r : HistoryResponse N) × (t : TicketsReport N) × (find_all sys q s ≡ ok r)
            × (get_sports_tickets sys q s ≡ some t)
            × (map (λ l. l.bet) r.bets ≡ map (λ k. k.bet) t.tickets)
            × (map (λ l. l.winnings) r.bets ≡ map (λ k. k.winnings) t.tickets)
            × (r.total_records ≡ t.pager.count))
    unfolding find_all get_sports_tickets
    get_sports_tickets-find_all = report_with-cases (where_of q)
