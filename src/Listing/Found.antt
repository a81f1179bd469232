-- ===== src/Listing/Found.antt =====
-- Which bets `findAll` of src/bets/bets.service.ts answers with.
use mathlib.Core.List.{Perm}
use betting_service.Prelude.{
  take-all, length-take, sym, subst, ◌≡◌, ◌≤◌, ap, refl, Bool, true, false, Bool-cases, inl, inr,
  List, [], ◌∷◌, drop, length, arith,
}
use betting_service.Entity.Bet.{Bet}
use betting_service.History.{page_size, page_of}
use betting_service.History.Pages.{first_page, size-page_of}
use betting_service.Table.Rows.{count-length}
use betting_service.Table.Newest.{
  All-take, All-drop, All-weaken, newest_first-All, Descending, NotAfter, take-Descending,
  drop-Descending, newest_first-Descending, newest_first-Perm, length-newest_first, select-All,
  map-All,
}
use betting_service.Store.{System, Store, selects_slips, ok}
use betting_service.Table.{newest_first, All, select_where, count_where}
use betting_service.Listing.{
  response_of, rows_of, list_bet, list_bets, find_all, find_with, ListedBet, HistoryResponse,
  where_of, matches, HistoryRequest, map, response_of,
}
use betting_service.Listing.Wanted.{Meets, matches-Meets, Meets-matches}

module _ {N : Type 0} where
  -- A page of the listed bets, as `findAll` makes it of its rows.
  list_bets-All {κ} :
      (P : Bet N → Type κ) (sys : System N) (s : Store N) (bs : List (Bet N))
      → All P bs
      → All (λ l. P l.bet) (list_bets sys s bs)
  unfolding list_bets list_bet
  list_bets-All P sys s [] h = tt
  list_bets-All P sys s (b ∷ bs) h = elim (Bool-cases (sys.fails selects_slips)) [
    | inl e ↦ rw e (list_bets-All P sys s bs h.1)
    | inr e ↦ rw e (h.0, list_bets-All P sys s bs h.1)
  ]

  length-list_bets :
      (sys : System N) (s : Store N) (bs : List (Bet N)) → length (list_bets sys s bs) ≤ length bs
  unfolding list_bets
  length-list_bets sys s [] = omega arith
  length-list_bets sys s (b ∷ bs) = ground (arith, length-list_bets sys s bs)

  -- Newest first, by the bets of the answer.
  abbrev pub IsNewestFirst : List (ListedBet N) → Type 0
  IsNewestFirst ls = Descending (λ b. b.created) (map (λ l. l.bet) ls)

  list_bets-Descending :
      (sys : System N) (s : Store N) (bs : List (Bet N))
      → Descending (λ b. b.created) bs
      → IsNewestFirst (list_bets sys s bs)
  unfolding list_bets list_bet
  list_bets-Descending sys s [] h = tt
  list_bets-Descending sys s (b ∷ bs) h = elim (Bool-cases (sys.fails selects_slips)) [
    | inl e ↦ rw e (list_bets-Descending sys s bs h.1)
    | inr e ↦ rw e (
      map-All (NotAfter (λ c. c.created) b.created) (λ l. l.bet) (list_bets sys s bs)
          (list_bets-All (NotAfter (λ c. c.created) b.created) sys s bs h.0),
      list_bets-Descending sys s bs h.1,
    )
  ]

  rows_of-All {κ} :
      (P : Bet N → Type κ) (q : HistoryRequest) (s : Store N)
      → All P (select_where (matches q) s.bets)
      → All P (rows_of q s)
  unfolding rows_of
  rows_of-All P q s h = All-take P _ _ (All-drop P _ _ (newest_first-All (λ b. b.created) P _ h))

  response_of-Meets :
      (sys : System N) (q : HistoryRequest) (s : Store N)
      → All (λ l. Meets q l.bet) (response_of sys q s).bets
  unfolding response_of
  response_of-Meets sys q s = list_bets-All (Meets q) sys s (rows_of q s) (
      rows_of-All (Meets q) q s (
        All-weaken (λ b. matches q b ≡ true) (Meets q) (matches-Meets q)
          (select_where (matches q) s.bets) (select-All (matches q) s.bets)))

  response_of-IsNewestFirst :
      (sys : System N) (q : HistoryRequest) (s : Store N) → IsNewestFirst (response_of sys q s).bets
  unfolding response_of rows_of
  response_of-IsNewestFirst sys q s = list_bets-Descending sys s (rows_of q s) (
      take-Descending (λ b. b.created) _ _
        (drop-Descending (λ b. b.created) _ _ (newest_first-Descending (λ b. b.created) _)))

  response_of-length :
      (sys : System N) (q : HistoryRequest) (s : Store N)
      → length (response_of sys q s).bets ≤ page_size q.per_page
  unfolding response_of rows_of page_of
  response_of-length sys q s = omega (
    arith,
    length-list_bets sys s (rows_of q s),
    length-take (page_size q.per_page) (
        drop (page_of (count_where (matches q) s.bets) q.per_page q.page).offset
          (newest_first (λ b. b.created) (select_where (matches q) s.bets))),
  )

  response_of-counted :
      (sys : System N) (q : HistoryRequest) (s : Store N)
      → (response_of sys q s).total_records ≡ length (select_where (matches q) s.bets)
  unfolding response_of
  response_of-counted sys q s = count-length (matches q) s.bets

  find_with-ok :
      (sys : System N) (q : HistoryRequest) (s : Store N) (ps : List (Bet N → Bool))
      (r : HistoryResponse N)
      → find_with sys q s ps ≡ ok r
      → response_of sys q s ≡ r
  unfolding find_with
  find_with-ok sys q s [] r h = absurd (cc h)
  find_with-ok sys q s (p ∷ ps) r h = cc h

  -- `findAll` answers only with bets that the request asks for, newest first, at most a page of them,
  -- and counts all of them.
  pub find_all-Meets :
      (sys : System N) (q : HistoryRequest) (s : Store N) (r : HistoryResponse N)
      → find_all sys q s ≡ ok r
      → All (λ l. Meets q l.bet) r.bets
        × IsNewestFirst r.bets
        × (length r.bets ≤ page_size q.per_page)
        × (r.total_records ≡ length (select_where (matches q) s.bets))
  unfolding find_all
  find_all-Meets sys q s r h = rw (sym (find_with-ok sys q s (where_of q) r h)) (
    response_of-Meets sys q s,
    response_of-IsNewestFirst sys q s,
    response_of-length sys q s,
    response_of-counted sys q s,
  )

  list_bets-bets :
      (sys : System N) (s : Store N) (bs : List (Bet N))
      → sys.fails selects_slips ≡ false
      → map (λ l. l.bet) (list_bets sys s bs) ≡ bs
  unfolding list_bets list_bet
  list_bets-bets sys s [] runs = refl
  list_bets-bets sys s (b ∷ bs) runs = rw runs (ap (λ cs. b ∷ cs) (list_bets-bets sys s bs runs))

  rows_of-all :
      (q : HistoryRequest) (s : Store N)
      → q.page ≤ 1
      → length (select_where (matches q) s.bets) ≤ page_size q.per_page
      → rows_of q s ≡ newest_first (λ b. b.created) (select_where (matches q) s.bets)
  unfolding rows_of
  rows_of-all q s first fits =
      let rows = select_where (matches q) s.bets in
      rw
        (
          first_page (count_where (matches q) s.bets) q.per_page q.page first,
          size-page_of (count_where (matches q) s.bets) q.per_page q.page,
        )
        (take-all (page_size q.per_page) (newest_first (λ b. b.created) rows)
          (omega (arith, length-newest_first (λ b. b.created) rows, fits)))

  response_of-complete :
      (sys : System N) (q : HistoryRequest) (s : Store N)
      → sys.fails selects_slips ≡ false
      → q.page ≤ 1
      → length (select_where (matches q) s.bets) ≤ page_size q.per_page
      → Perm (map (λ l. l.bet) (response_of sys q s).bets) (select_where (matches q) s.bets)
  unfolding response_of
  response_of-complete sys q s runs first fits =
      rw (list_bets-bets sys s (rows_of q s) runs, rows_of-all q s first fits)
        (newest_first-Perm (λ b. b.created) (select_where (matches q) s.bets))

  -- If the slips can be read and the count in the reply fits on a page, the first page lists the rows of
  -- the query, each as often as it is stored; and the query leaves out no bet that meets the request.
  pub find_all_complete :
      (sys : System N) (q : HistoryRequest) (s : Store N) (r : HistoryResponse N)
      → find_all sys q s ≡ ok r
      → sys.fails selects_slips ≡ false
      → q.page ≤ 1
      → r.total_records ≤ page_size q.per_page
      → Perm (map (λ l. l.bet) r.bets) (select_where (matches q) s.bets)
        × ((b : Bet N) → Meets q b → matches q b ≡ true)
  unfolding find_all
  find_all_complete sys q s r h runs first fits =
      let whole = find_with-ok sys q s (where_of q) r h in
      (
        subst
            (λ (x : HistoryResponse N).
              Perm (map (λ l. l.bet) x.bets) (select_where (matches q) s.bets))
            whole
            (response_of-complete sys q s runs first
              (rw (sym (response_of-counted sys q s), whole) fits)),
        Meets-matches q,
      )
