-- ===== src/Reports/Games.antt =====
-- The lists of virtual and casino bets: `getVirtualTickets` and `getCasinoBets` of
-- src/bets/report.service.ts, `getTickets` of src/bets/virtual-bet.service.ts and `agentVBets` of
-- src/bets/retail.service.ts. A time is a number; of two rows of one time the order is that of the
-- table, which SQL does not promise.
pub mod Pages
mod Tests
use betting_service.Prelude.{
  ℕ, zero, suc, ◌+◌, ◌*◌, ◌==◌, leb, ltb, Bool, true, false, ◌&&◌, ◌||◌, if◌then◌else◌, String,
  str_eq, List, [], ◌∷◌, take, drop, length, Option, none, some,
}
use betting_service.Floats.{Floats}
use betting_service.Table.{select_where, count_where, newest_first}
use betting_service.Entity.Games.{CasinoBet, VirtualBet}
use betting_service.Store.{Store, Result, ok, thrown}
use betting_service.History.{Pager, paginate_response}

-- The column `status` of a request: '', 'settled', or a number as a text.
pub data TicketStatus : Type 0 where
  no_status settled_status : TicketStatus
  of_status : ℕ → TicketStatus

pub record GameRequest : Type 0 where
  pub client_id : ℕ
  -- '' for all
  pub username : String
  pub from : ℕ
  pub to : ℕ
  pub page : ℕ

-- The rows of a page, the pager, and `totals`. A division by a page size that is not given has no pager.
pub record GamePage (A N : Type 0) : Type 0 where
  pub rows : List A
  pub pager : Option Pager
  pub total_stake : N
  pub total_winnings : N

-- The columns that the lists read of a virtual or a casino bet.
pub record Columns (A N : Type 0) : Type 0 where
  pub client_id : A → ℕ
  pub user_id : A → ℕ
  pub username : A → String
  pub status : A → ℕ
  pub stake : A → N
  pub winnings : A → N
  pub created_at : A → ℕ

abbrev pub virtual_columns : {N : Type 0} → Columns (VirtualBet N) N
virtual_columns = record {
  client_id = λ b. b.client_id;
  user_id = λ b. b.user_id;
  username = λ b. b.username;
  status = λ b. b.status;
  stake = λ b. b.stake;
  winnings = λ b. b.winnings;
  created_at = λ b. b.created_at;
}

abbrev pub casino_columns : {N : Type 0} → Columns (CasinoBet N) N
casino_columns = record {
  client_id = λ b. b.client_id;
  user_id = λ b. b.user_id;
  username = λ b. b.username;
  status = λ b. b.status;
  stake = λ b. b.stake;
  winnings = λ b. b.winnings;
  created_at = λ b. b.created_at;
}

-- `fetchUserIds`, from the reply of the identity service, which is none without success.
unfoldable pub fetch_user_ids : Result (Option (List ℕ)) → Result (List ℕ)
fetch_user_ids (ok (some users)) = ok users
fetch_user_ids (ok none) = ok []
fetch_user_ids thrown = thrown

-- `user_id IN (…)`
abbrev pub is_among : List ℕ → ℕ → Bool
is_among [] id = false
is_among (u ∷ us) id = (u == id) || is_among us id

-- Only a number is a condition.
abbrev pub has_ticket_status : TicketStatus → ℕ → Bool
has_ticket_status (of_status status) x = x == status
has_ticket_status other x = true

-- `.limit(100).offset((page - 1) * 100 + 1)`: below page 1 the offset is negative, which is refused.
pub page_rows {ℓ} : {A : Type ℓ} → (page : ℕ) → List A → Option (List A)
page_rows zero rows = none
page_rows (suc k) rows = some (take 100 (drop (k * 100 + 1) rows))

-- `paginateResponse`, unless it divides by 0 or by what is not given.
abbrev pub pager_of : (total page limit : ℕ) → Option Pager
pager_of total page zero = none
pager_of total page (suc n) = some (paginate_response total page (suc n))

module _ {N : Type 0} where
  -- `SUM(…) || 0`
  unfoldable pub sum_by : {A : Type 0} → Floats N → (A → N) → List A → N
  sum_by floats column [] = floats.zero_num
  sum_by floats column (x ∷ xs) = floats.add (column x) (sum_by floats column xs)

  -- The rows of the client in the two times, of users whose name contains the text; `contains` is
  -- `LIKE '%…%'`.
  unfoldable pub in_period :
      {A : Type 0} → (contains : String → String → Bool) → Columns A N → GameRequest → A → Bool
  in_period contains columns q x =
      (columns.client_id x == q.client_id)
      && leb q.from (columns.created_at x)
      && leb (columns.created_at x) q.to
      && (str_eq q.username "" || contains (columns.username x) q.username)

  abbrev pub page_with :
      {A : Type 0}
      → Floats N
      → Columns A N
      → (rows : List A) → (page limit : ℕ) → Option (List A)
      → Option (GamePage A N)
  page_with floats columns rows page limit none = none
  page_with floats columns rows page limit (some shown) = some (record {
    rows = shown;
    pager = pager_of (length rows) page limit;
    total_stake = sum_by floats columns.stake rows;
    total_winnings = sum_by floats columns.winnings rows;
  })

  -- The page of the rows that match, newest first, and the sums over all of them. `none` is the answer
  -- 'Unable to fetch betlist'.
  unfoldable pub game_page :
      {A : Type 0}
      → Floats N
      → Columns A N
      → (A → Bool)
      → (page limit : ℕ) → List A
      → Option (GamePage A N)
  game_page floats columns p page limit table =
      let rows = select_where p table in
      page_with floats columns rows page limit
        (page_rows page (newest_first columns.created_at rows))

  module _ (floats : Floats N) (contains : String → String → Bool) where
    unfoldable pub get_virtual_tickets :
        TicketStatus → GameRequest → Store N → Option (GamePage (VirtualBet N) N)
    get_virtual_tickets status q s =
        game_page floats virtual_columns
          (λ b. in_period contains virtual_columns q b && has_ticket_status status b.status) q.page
          100 s.virtual_bets

    unfoldable pub get_casino_bets :
        TicketStatus → GameRequest → Store N → Option (GamePage (CasinoBet N) N)
    get_casino_bets status q s =
        game_page floats casino_columns
          (λ b. in_period contains casino_columns q b && has_ticket_status status b.status) q.page
          100 s.casino_bets

    -- `betType`, where 0 is not a condition.
    unfoldable pub get_tickets :
        (bet_type : ℕ) → GameRequest → Store N → Option (GamePage (VirtualBet N) N)
    get_tickets bet_type q s =
        game_page floats virtual_columns
          (λ b.
            in_period contains virtual_columns q b && ((bet_type == 0) || (b.status == bet_type)))
          q.page 100 s.virtual_bets

    -- `IN ()` is refused; the pages are of 100, the pager counts pages of `per_page`.
    unfoldable pub of_users :
        (per_page : ℕ) → GameRequest → Store N → List ℕ → Option (GamePage (VirtualBet N) N)
    of_users per_page q s [] = none
    of_users per_page q s (u ∷ us) =
        game_page floats virtual_columns
          (λ b. in_period contains virtual_columns q b && is_among (u ∷ us) b.user_id) q.page
          per_page s.virtual_bets

    abbrev pub for_users :
        (per_page : ℕ)
        → GameRequest
        → Store N
        → Result (List ℕ)
        → Option (GamePage (VirtualBet N) N)
    for_users per_page q s (ok users) = of_users per_page q s users
    for_users per_page q s thrown = none

    unfoldable pub agent_v_bets :
        (identity : Result (Option (List ℕ)))
        → (per_page : ℕ) → GameRequest
        → Store N
        → Option (GamePage (VirtualBet N) N)
    agent_v_bets identity per_page q s = for_users per_page q s (fetch_user_ids identity)
