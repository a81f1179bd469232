-- ===== src/Settling/Counts.antt =====
-- The counters of `resultBet`, JavaScript numbers that may be NaN, and the count that is made anew when
-- a slip is void (src/cronjobs/workers/bet.settlement.service.ts).
use betting_service.Prelude.{ℕ, ◌+◌, ◌==◌, ltb, Bool, false, if◌then◌else◌, ◌≡◌, arith}
use betting_service.Int.{ℤ, ◌=ℤ◌, status_not_lost_or_won, status_won, betslip_processing_cancelled}

pub data Count : Type 0 where
  num : ℕ → Count
  nan : Count

-- A variable that `let` declares with no value holds undefined, and a sum with it is NaN.
abbrev pub add_undefined : Count → Count
add_undefined c = nan

abbrev pub add_num : ℕ → Count → Count
add_num k (num n) = num (n + k)
add_num k nan = nan

-- `c == 0`, `c > 0` and `c == d`
abbrev pub is_zero : Count → Bool
is_zero (num n) = n == 0
is_zero nan = false

abbrev pub is_positive : Count → Bool
is_positive (num n) = ltb 0 n
is_positive nan = false

abbrev pub same_count : Count → Count → Bool
same_count (num m) (num n) = m == n
same_count (num m) nan = false
same_count nan d = false

pub record Recount : Type 0 where
  pub won : Count
  pub lost : Count
  pub pending : Count
  pub cancelled : Count
  pub games : Count

abbrev pub no_rows : Recount
no_rows = record { won = num 0; lost = num 0; pending = num 0; cancelled = num 0; games = num 0 }

-- `let lost, pending, win, cancelled = 0` gives a value to `cancelled` alone.
pub recount_row : (status won : ℤ) → Recount → Recount
recount_row status won r =
    if status =ℤ betslip_processing_cancelled
    then record {
      won = add_undefined r.won;
      lost = add_undefined r.lost;
      pending = add_undefined r.pending;
      cancelled = add_num 1 r.cancelled;
      games = add_num 1 r.games;
    }
    else (if won =ℤ status_not_lost_or_won
        then record {
          won = add_undefined r.won;
          lost = add_undefined r.lost;
          pending = add_num 1 r.pending;
          cancelled = add_num 0 r.cancelled;
          games = add_num 1 r.games;
        }
        else (if won =ℤ status_won
            then record {
              won = add_num 1 r.won;
              lost = add_undefined r.lost;
              pending = add_undefined r.pending;
              cancelled = add_num 0 r.cancelled;
              games = add_num 1 r.games;
            }
            else record {
              won = add_undefined r.won;
              lost = add_num 1 r.lost;
              pending = add_undefined r.pending;
              cancelled = add_num 0 r.cancelled;
              games = add_num 1 r.games;
            }))

-- After a row the count of the lost slips is NaN or at least 1.
pub recount_row-lost :
    (status won : ℤ) (r : Recount) → is_zero (recount_row status won r).lost ≡ false
unfolding recount_row
recount_row-lost status won r = ground arith
