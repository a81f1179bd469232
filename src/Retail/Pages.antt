-- ===== src/Retail/Pages.antt =====
-- Which bets the pages of `agentBets` of src/bets/retail.service.ts show.
use betting_service.Prelude.{
  ℕ, zero, suc, ◌+◌, ◌-◌, ◌*◌, ◌≡◌, ◌≤◌, ◌∙◌, refl, ap, true, false, ltb, List, [], ◌∷◌, ◌++◌, map,
  take, drop, length, take-all, take-add, drop-add, none, some, arith,
}
use mathlib.Core.List.{append_assoc, append-nil}
use native.Mathlib.Nat.{suc-mul}
use betting_service.Table.{newest_first}
use betting_service.Table.Newest.{length-newest_first}
use betting_service.Entity.Bet.{Bet}
use betting_service.Store.{Store, System, ok, selects_slips}
use betting_service.Reports.Games.{fetch_user_ids}
use betting_service.History.{page_size}
use betting_service.Retail.{
  of_agent, AgentRequest, agent_rows, agent_page, agent_tickets, agent_ticket, bets_of_users,
  agent_bets,
}

-- Pages of a list, as `agentBets` cuts them, one after the other.
cut : {A : Type 0} → (limit : ℕ) → List A → ℕ → List A
cut limit rows zero = []
cut limit rows (suc n) = cut limit rows n ++ agent_page limit (suc n) rows

length-drop : {A : Type 0} (n : ℕ) (xs : List A) → length (drop n xs) ≡ length xs - n
length-drop zero xs = omega arith
length-drop (suc n) [] = omega arith
length-drop (suc n) (x ∷ xs) = omega (arith, length-drop n xs)

-- After the first page each page goes on where the page before it ends.
next_page :
    {A : Type 0} (limit : ℕ) (rows : List A) (k : ℕ)
    → take (k * limit) (drop (suc limit) rows) ++ agent_page limit (suc (suc k)) rows
      ≡ take (suc k * limit) (drop (suc limit) rows)
next_page limit rows k =
    let start : suc k * limit + 1 ≡ suc limit + k * limit = omega (arith, suc-mul k limit) in
    let later : ltb 1 (suc (suc k)) ≡ true = ground arith in
    let before : suc (suc k) - 1 ≡ suc k = omega arith in
    let whole : suc k * limit ≡ k * limit + limit = omega (arith, suc-mul k limit) in
    rw
      (
        later,
        before,
        start,
        drop-add (suc limit) (k * limit) rows,
        whole,
        take-add (k * limit) limit (drop (suc limit) rows),
      )
      refl

cut-take :
    {A : Type 0} (limit : ℕ) (rows : List A) (k : ℕ)
    → cut limit rows (suc k) ≡ take limit rows ++ take (k * limit) (drop (suc limit) rows)
unfolding cut
cut-take limit rows zero =
    let none_more : 0 * limit ≡ 0 = omega arith in rw (none_more, append-nil (take limit rows)) refl
cut-take limit rows (suc k) =
    ap (λ ys. ys ++ agent_page limit (suc (suc k)) rows) (cut-take limit rows k)
    ∙ append_assoc (take limit rows) _ _
    ∙ ap (λ ys. take limit rows ++ ys) (next_page limit rows k)

cut-all :
    {A : Type 0} (limit : ℕ) (rows : List A) (k : ℕ)
    → length rows ≤ suc k * limit
    → cut limit rows (suc k) ≡ take limit rows ++ drop (suc limit) rows
cut-all limit rows k fits =
    cut-take limit rows k
    ∙ ap (λ ys. take limit rows ++ ys)
        (take-all (k * limit) (drop (suc limit) rows)
          (omega (arith, length-drop (suc limit) rows, fits)))

module _ {N : Type 0} (sys : System N) (u : ℕ) (us : List ℕ) (q : AgentRequest) (s : Store N) where
  -- The bets on a page of the reply.
  abbrev pub page_bets : ℕ → List (Bet N)
  page_bets page = elim (agent_bets sys (ok (some (u ∷ us))) (record q { page = page }) s) [
    | none ↦ []
    | some reply ↦ map (λ t. t.bet) reply.tickets
  ]

  -- The pages from 1 to `n`, one after the other.
  abbrev pub agent_pages : ℕ → List (Bet N)
  agent_pages zero = []
  agent_pages (suc n) = agent_pages n ++ page_bets (suc n)

  abbrev pub sorted_rows : List (Bet N)
  sorted_rows = newest_first (λ b. b.created) (agent_rows (u ∷ us) q s)

  abbrev limit : ℕ
  limit = page_size q.per_page

  tickets-bets :
      (bs : List (Bet N))
      → sys.fails selects_slips ≡ false
      → map (λ t. t.bet) (agent_tickets sys s bs) ≡ bs
  unfolding agent_tickets agent_ticket
  tickets-bets [] runs = refl
  tickets-bets (b ∷ bs) runs = rw runs (ap (λ cs. b ∷ cs) (tickets-bets bs runs))

  page_bets-cut :
      (page : ℕ)
      → sys.fails selects_slips ≡ false
      → page_bets page ≡ agent_page limit page sorted_rows
  unfolding agent_bets fetch_user_ids bets_of_users agent_rows of_agent
  page_bets-cut page runs = tickets-bets (agent_page limit page sorted_rows) runs

  agent_pages-cut :
      (n : ℕ) → sys.fails selects_slips ≡ false → agent_pages n ≡ cut limit sorted_rows n
  unfolding cut
  agent_pages-cut zero runs = refl
  agent_pages-cut (suc n) runs = λ i. agent_pages-cut n runs i ++ page_bets-cut (suc n) runs i

  -- If the slips can be read, the pages of `agentBets`, when they are enough for all matching bets,
  -- show one after the other every one of them, newest first and once, but the one that follows the
  -- first page, which is on none.
  pub agent_bets-pages :
      (k : ℕ)
      → sys.fails selects_slips ≡ false
      → length (agent_rows (u ∷ us) q s) ≤ suc k * page_size q.per_page
      → agent_pages (suc k)
        ≡ take (page_size q.per_page) sorted_rows ++ drop (suc (page_size q.per_page)) sorted_rows
  agent_bets-pages k runs fits =
      agent_pages-cut (suc k) runs
      ∙ cut-all limit sorted_rows k
          (omega (arith, length-newest_first (λ b. b.created) (agent_rows (u ∷ us) q s), fits))
