-- ===== src/Cron.antt =====
-- The `cronjob` rows that keep two runs of a task apart: the head and the foot of
-- `taskProcessBetSettlement` and `taskProcessUnSettledBet` (bet.settlement.service.ts) and of
-- `taskProcessMtsTimeoutBetCancelation` (mts.timeout.service.ts), and `startUp`
-- (src/cronjobs/cronjob.service.ts).
pub mod Follows
mod Tests
pub mod Lock
use betting_service.Prelude.{String, Bool, ◌&&◌, List, ◌∷◌, str_eq, if◌then◌else◌}
use betting_service.Int.{ℤ, pos, ◌=ℤ◌}
use betting_service.Table.{update_where, exists_where}
use betting_service.Entity.Records.{Cronjob}
use betting_service.Store.{Store}
use betting_service.Store.Action.{Action, return, get, modify, ◌>>=◌, ◌>>◌}

module _ {N : Type 0} where
  -- `findOne({where: {name, status: 1}})` finds a row
  pub is_running : String → Store N → Bool
  is_running name s = exists_where (λ c. str_eq c.name name && (c.status =ℤ pos 1)) s.cronjobs

  -- `upsert(task, ['status'])`, by the unique index on `name`
  pub write_cronjob : String → ℤ → Store N → Store N
  write_cronjob name status s =
      if exists_where (λ c. str_eq c.name name) s.cronjobs
      then record s {
        cronjobs =
            update_where (λ c. str_eq c.name name) (λ c. record c { status = status }) s.cronjobs;
      }
      else record s { cronjobs = record { name = name; status = status } ∷ s.cronjobs }

  -- The task `body`, unless a row says that it is running.
  pub exclusively : String → Action N (Unit {0}) → Action N (Unit {0})
  exclusively name body = do
    running ← get (is_running name)
    if running
        then return tt
        else (modify (write_cronjob name (pos 1)) >> body >> modify (write_cronjob name (pos 0)))

  -- When the application starts, every row is reset.
  pub reset_cronjobs : Action N (Unit {0})
  reset_cronjobs = modify λ s. record s {
    cronjobs = update_where (λ c. c.status =ℤ pos 1) (λ c. record c { status = pos 0 }) s.cronjobs;
  }
