-- ===== src/Reports/Games/Pages.antt =====
-- Which rows the pages of the lists of virtual and casino bets show: src/bets/report.service.ts.
use betting_service.Prelude.{
  ◌&&◌, ℕ, zero, suc, ◌+◌, ◌*◌, ◌≡◌, ◌≤◌, refl, Bool, String, List, [], ◌∷◌, ◌++◌, take, drop,
  length, take-all, take-add, drop-add, Option, none, some, arith,
}
use betting_service.Floats.{Floats}
use betting_service.Table.{select_where, newest_first}
use betting_service.Table.Newest.{length-newest_first}
use betting_service.Entity.Games.{CasinoBet, VirtualBet}
use betting_service.Store.{Store}
use betting_service.History.{ceil_div, paginate_response}
use betting_service.History.Pages.{ceil_div-between}
use betting_service.Reports.Games.{
  GamePage, GameRequest, TicketStatus, Columns, page_rows, game_page, get_virtual_tickets,
  get_casino_bets, in_period, has_ticket_status, virtual_columns, casino_columns,
}

abbrev pub shown : {A N : Type 0} → Option (GamePage A N) → List A
shown none = []
shown (some p) = p.rows

-- The pages from 1 to `n`, one after the other.
abbrev pub all_pages : {A N : Type 0} → (ℕ → Option (GamePage A N)) → ℕ → List A
all_pages f zero = []
all_pages f (suc n) = all_pages f n ++ shown (f (suc n))

-- The last page that a reply names.
abbrev pub named_pages : {A N : Type 0} → Option (GamePage A N) → ℕ
named_pages none = 0
named_pages (some p) = elim p.pager [ none ↦ 0 | some pager ↦ pager.last_page ]

length-drop_one : {A : Type 0} (xs : List A) → length (drop 1 xs) ≤ length xs
length-drop_one [] = omega arith
length-drop_one (x ∷ xs) = omega arith

module _ {A N : Type 0} (floats : Floats N) (columns : Columns A N) (p : A → Bool)
    (table : List A) where
  abbrev sorted : List A
  sorted = newest_first columns.created_at (select_where p table)

  abbrev page_at : ℕ → Option (GamePage A N)
  page_at page = game_page floats columns p page 100 table

  shown-page_at : (k : ℕ) → shown (page_at (suc k)) ≡ take 100 (drop (k * 100 + 1) sorted)
  unfolding game_page page_rows
  shown-page_at k = refl

  all_pages-take : (n : ℕ) → all_pages page_at n ≡ take (n * 100) (drop 1 sorted)
  all_pages-take zero = refl
  all_pages-take (suc n) =
      let whole : suc n * 100 ≡ n * 100 + 100 = omega arith in
      let start : n * 100 + 1 ≡ 1 + n * 100 = omega arith in
      rw
        (
          all_pages-take n,
          shown-page_at n,
          whole,
          take-add (n * 100) 100 (drop 1 sorted),
          start,
          drop-add 1 (n * 100) sorted,
        )
        refl

  named-page_at : named_pages (page_at 1) ≡ ceil_div (length (select_where p table)) 100
  unfolding game_page page_rows paginate_response
  named-page_at = refl

  game_page-pages : all_pages page_at (named_pages (page_at 1)) ≡ drop 1 sorted
  game_page-pages =
      let rows = select_where p table in
      let (enough, _) = ceil_div-between (length rows) 99 in
      rw (named-page_at, all_pages-take (ceil_div (length rows) 100))
        (take-all _ (drop 1 sorted) (
          omega
            (arith, length-drop_one sorted, length-newest_first columns.created_at rows, enough)))

module _ {N : Type 0} (floats : Floats N) (contains : String → String → Bool)
    (status : TicketStatus) (q : GameRequest) (s : Store N) where
  abbrev pub virtual_rows : List (VirtualBet N)
  virtual_rows =
      newest_first (λ b. b.created_at)
        (select_where
          (λ b. in_period contains virtual_columns q b && has_ticket_status status b.status)
          s.virtual_bets)

  abbrev pub casino_rows : List (CasinoBet N)
  casino_rows =
      newest_first (λ b. b.created_at)
        (select_where
          (λ b. in_period contains casino_columns q b && has_ticket_status status b.status)
          s.casino_bets)

  abbrev pub virtual_page : ℕ → Option (GamePage (VirtualBet N) N)
  virtual_page page = get_virtual_tickets floats contains status (record q { page = page }) s

  abbrev pub casino_page : ℕ → Option (GamePage (CasinoBet N) N)
  casino_page page = get_casino_bets floats contains status (record q { page = page }) s

  -- The pages of virtual bets, and those of casino bets, from the first to the last that the reply
  -- names, show one after the other every matching bet but the newest, newest first, each once.
  pub get_virtual_tickets-all_pages :
      (all_pages virtual_page (named_pages (virtual_page 1)) ≡ drop 1 virtual_rows)
      × (all_pages casino_page (named_pages (casino_page 1)) ≡ drop 1 casino_rows)
  unfolding get_virtual_tickets get_casino_bets in_period
  get_virtual_tickets-all_pages = (
    game_page-pages floats virtual_columns
        (λ b. in_period contains virtual_columns q b && has_ticket_status status b.status)
        s.virtual_bets,
    game_page-pages floats casino_columns
        (λ b. in_period contains casino_columns q b && has_ticket_status status b.status)
        s.casino_bets,
  )
