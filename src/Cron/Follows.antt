-- ===== src/Cron/Follows.antt =====
-- The rows of the tasks are no part of the ledger (src/cronjobs).
use betting_service.Prelude.{◌≡◌, String, arith}
use betting_service.Int.{ℤ, pos}
use betting_service.Store.{Store}
use betting_service.Store.Action.{Action, modify}
use betting_service.Store.Keeps.{Keeps-return, Keeps-bind, Keeps-get, Keeps-if}
use betting_service.Ledger.{Ledger, view}
use betting_service.Ledger.Rules.{Follows, following, Steps-same}
use betting_service.Cron.{exclusively, write_cronjob, reset_cronjobs}

module _ {N : Type 0} where
  write_cronjob-view :
      (name : String) (k : ℤ) (s : Store N) → view (write_cronjob name k s) ≡ view s
  unfolding write_cronjob
  write_cronjob-view name k s = ground arith

  pub write_cronjob-Follows :
      (l : Ledger N) (name : String) (k : ℤ) → Follows l (modify (write_cronjob name k))
  write_cronjob-Follows l name k = Steps-same l _ (write_cronjob-view name k)

  pub exclusively-Follows :
      (l : Ledger N) (name : String) (body : Action N (Unit {0}))
      → Follows l body
      → Follows l (exclusively name body)
  unfolding exclusively
  exclusively-Follows l name body h = Keeps-bind _ _ (Keeps-get _) (λ running.
      Keeps-if running _ _ (Keeps-return _) (
        Keeps-bind _ _ (Keeps-bind _ _ (write_cronjob-Follows l name (pos 1)) (λ _. h))
          (λ _. write_cronjob-Follows l name (pos 0))))

  pub reset_cronjobs-Follows : (l : Ledger N) → Follows l (reset_cronjobs {N = N})
  unfolding reset_cronjobs
  reset_cronjobs-Follows l = search following
