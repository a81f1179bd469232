-- ===== src/Reports/Gaming/Tests.antt =====
-- The activity of the samples by their states.
use betting_service.Prelude.{ℕ, ◌≡◌, refl, List, [], ◌∷◌, map, Option, none, some}
use betting_service.Store.{thrown}
use betting_service.Entity.Bet.{Bet}
use betting_service.Table.{select_where}
use betting_service.Reports.Gaming.{
  activity_report, ActivityRequest, ActivityReport, Sql, sports, virtual, column, real,
  gaming_activity, activity_with, activity_rows, is_activity, group_by, add_row, activity_of,
  users_of, key_of,
}
use betting_service.Reports.Gaming.Groups.{Partitions, gaming_activity-Partitions}
use betting_service.Reports.Gaming.Wanted.{Selects}
use betting_service.Samples.{hundredths, store, open_bet}

abbrev activity : ActivityRequest
activity = record {
  group_by = column "total_bets";
  product_type = sports;
  display_type = real;
  client_id = open_bet.client_id;
  from = 0;
  to = 100000;
  username = "";
  bet_type = "";
  source = "";
  event_type = "";
  user_id = none;
}

abbrev sql : Sql ℕ
sql = record {
  date_of = λ time. time;
  month_of = λ time. time;
  column_of = λ name. some (λ b. b.id);
}

abbrev answered : ActivityReport ℕ
answered = activity_report hundredths sports store (activity_rows activity none store) (λ b. b.id)

-- A group for each bet without a bonus.
answered_groups : map (λ a. a.key) answered.bets ≡ 9 ∷ 7 ∷ []
unfolding activity_report activity_rows is_activity select_where group_by add_row activity_of
answered_groups = refl

is_answered : gaming_activity hundredths sql thrown activity store ≡ some answered
unfolding gaming_activity activity_with
is_answered = refl

gaming_activity-Partitions_example :
    (users : Option (List ℕ)) × (key : Bet ℕ → ℕ) × (users_of none thrown ≡ some users)
    × (key_of sql (column "total_bets") ≡ some key)
    × Partitions key (activity_rows activity users store) answered
    × Selects activity users store.bets (activity_rows activity users store)
gaming_activity-Partitions_example =
    gaming_activity-Partitions hundredths sql thrown activity store answered is_answered

-- Virtual bets are always refused.
virtual_refused :
    gaming_activity hundredths sql thrown (record activity { product_type = virtual }) store ≡ none
unfolding gaming_activity
virtual_refused = refl
