-- ===== src/Reports/Gaming.antt =====
-- `gamingActivity` of src/bets/report.service.ts. A time is a number. The value of a column that is
-- grouped by is a number too: values that the database tells apart have different numbers. The database
-- is one that lets a query with sums select other columns; these are left out.
pub mod Wanted
pub mod Groups
mod Tests
use betting_service.Prelude.{
  ℕ, ◌==◌, leb, Bool, true, false, not, ◌&&◌, ◌||◌, if◌then◌else◌, String, str_eq, List, [], ◌∷◌,
  map, length, Option, none, some,
}
use betting_service.Int.{ℤ, ◌=ℤ◌, bet_cancelled, bet_voided}
use betting_service.Floats.{Floats}
use betting_service.Table.{select_where}
use betting_service.Entity.Bet.{Bet}
use betting_service.Store.{Store, Result, ok, thrown}
use betting_service.Reports.{total_winnings_of}
use betting_service.Reports.Games.{is_among, sum_by, fetch_user_ids}

-- `productType`
pub data ProductType : Type 0 where
  sports virtual other_type : ProductType

-- `groupBy`: 'day', 'month', or the name of a column.
pub data GroupBy : Type 0 where
  day month : GroupBy
  column : String → GroupBy

-- `displayType`
pub data DisplayType : Type 0 where
  real other_display : DisplayType

pub record ActivityRequest : Type 0 where
  pub group_by : GroupBy
  pub product_type : ProductType
  pub display_type : DisplayType
  pub client_id : ℕ
  pub from : ℕ
  pub to : ℕ
  -- '' for all
  pub username : String
  pub bet_type : String
  pub source : String
  pub event_type : String
  -- `none` for all
  pub user_id : Option ℕ

-- What the database adds: DATE and MONTH, and the columns of `bet` by their names.
pub record Sql (N : Type 0) : Type 0 where
  pub date_of : ℕ → ℕ
  pub month_of : ℕ → ℕ
  pub column_of : String → Option (Bet N → ℕ)

-- The bets of one value of the column.
pub record Group (A : Type 0) : Type 0 where
  pub key : ℕ
  pub rows : List A

-- A row of the answer. `average` and `winnings` are selected for sports alone.
pub record Activity (N : Type 0) : Type 0 where
  pub key : ℕ
  pub turnover : N
  pub total : ℕ
  pub average : Option N
  pub winnings : Option N

pub record ActivityReport (N : Type 0) : Type 0 where
  pub bets : List (Activity N)
  pub total_stake : N
  pub total_winnings : N
  pub total_tickets : ℕ

-- GROUP BY
unfoldable pub add_row : {A : Type 0} → ℕ → A → List (Group A) → List (Group A)
add_row k x [] = record { key = k; rows = x ∷ [] } ∷ []
add_row k x (g ∷ gs) = elim (k == g.key) [
  | true ↦ record g { rows = x ∷ g.rows } ∷ gs
  | false ↦ g ∷ add_row k x gs
]

unfoldable pub group_by : {A : Type 0} → (A → ℕ) → List A → List (Group A)
group_by key [] = []
group_by key (x ∷ xs) = add_row (key x) x (group_by key xs)

abbrev pub is_unset : String → Bool
is_unset text = str_eq text ""

-- `bonus_id IS NULL`, or `bonus_id != 0`, which is not true of null
abbrev pub displays : DisplayType → Option ℕ → Bool
displays real none = true
displays real (some id) = false
displays other_display none = false
displays other_display (some id) = not (id == 0)

abbrev pub for_sports : {A : Type 0} → ProductType → A → Option A
for_sports sports x = some x
for_sports other x = none

-- The users are a condition if one is asked for; `IN ()` is refused.
abbrev pub users_of : Option ℕ → (identity : Result (Option (List ℕ))) → Option (Option (List ℕ))
users_of none identity = some none
users_of (some user_id) identity = elim (fetch_user_ids identity) [
  | thrown ↦ none
  | ok users ↦ elim users [ [] ↦ none | u ∷ us ↦ some (some (u ∷ us)) ]
]

abbrev pub is_user : Option (List ℕ) → ℕ → Bool
is_user none id = true
is_user (some users) id = is_among users id

module _ {N : Type 0} where
  -- The condition but that on the users.
  unfoldable pub is_activity : ActivityRequest → Bet N → Bool
  is_activity q b =
      (b.info.is_booked == 0)
      && (b.client_id == q.client_id)
      && leb q.from b.created
      && leb b.created q.to
      && not (b.status =ℤ bet_cancelled)
      && not (b.status =ℤ bet_voided)
      && (is_unset q.username || str_eq b.username q.username)
      && (is_unset q.bet_type || str_eq b.info.bet_type q.bet_type)
      && (is_unset q.source || str_eq b.source q.source)
      && (is_unset q.event_type || str_eq b.info.event_type q.event_type)
      && displays q.display_type b.bonus_id

  abbrev pub key_of : Sql N → GroupBy → Option (Bet N → ℕ)
  key_of sql day = some (λ b. sql.date_of b.created)
  key_of sql month = some (λ b. sql.month_of b.created)
  key_of sql (column name) = sql.column_of name

  abbrev pub or_zero : Floats N → Option N → N
  or_zero floats none = floats.zero_num
  or_zero floats (some x) = x

  -- SUM(w.winning_after_tax), which is null for no winnings
  abbrev pub sport_winnings : Floats N → ProductType → Store N → List (Bet N) → Option N
  sport_winnings floats sports s rows = total_winnings_of floats s rows
  sport_winnings floats other s rows = none

  unfoldable pub activity_of : Floats N → ProductType → Store N → Group (Bet N) → Activity N
  activity_of floats product s g = record {
    key = g.key;
    turnover = sum_by floats (λ b. b.stake) g.rows;
    total = length g.rows;
    average =
        for_sports product
          (floats.div (sum_by floats (λ b. b.stake) g.rows) (floats.of_ℕ (length g.rows)));
    winnings = sport_winnings floats product s g.rows;
  }

  -- The sums over all rows, then over those of each group.
  unfoldable pub activity_report :
      Floats N → ProductType → Store N → List (Bet N) → (Bet N → ℕ) → ActivityReport N
  activity_report floats product s rows key = record {
    bets = map (activity_of floats product s) (group_by key rows);
    total_stake = sum_by floats (λ b. b.stake) rows;
    total_winnings = or_zero floats (sport_winnings floats product s rows);
    total_tickets = length rows;
  }

  -- A column that `bet` does not have is refused.
  unfoldable pub activity_with :
      Floats N
      → ProductType
      → Store N
      → List (Bet N)
      → Option (Bet N → ℕ)
      → Option (ActivityReport N)
  activity_with floats product s rows none = none
  activity_with floats product s rows (some key) = some (activity_report floats product s rows key)

  unfoldable pub activity_rows : ActivityRequest → Option (List ℕ) → Store N → List (Bet N)
  activity_rows q users s = select_where (λ b. is_activity q b && is_user users b.user_id) s.bets

  abbrev pub activity_for :
      Floats N
      → Sql N
      → ActivityRequest
      → Store N
      → ProductType
      → Option (Option (List ℕ))
      → Option (ActivityReport N)
  activity_for floats sql q s product none = none
  activity_for floats sql q s sports (some users) =
      activity_with floats sports s (activity_rows q users s) (key_of sql q.group_by)
  -- The query reads the table of virtual bets and names the columns of `bet`: it is refused.
  activity_for floats sql q s virtual (some users) = none
  activity_for floats sql q s other_type (some users) =
      activity_with floats other_type s (activity_rows q users s) (key_of sql q.group_by)

  -- `none` is the answer 'Unable to fetch data'.
  unfoldable pub gaming_activity :
      Floats N
      → Sql N
      → (identity : Result (Option (List ℕ))) → ActivityRequest
      → Store N
      → Option (ActivityReport N)
  gaming_activity floats sql identity q s =
      activity_for floats sql q s q.product_type (users_of q.user_id identity)
