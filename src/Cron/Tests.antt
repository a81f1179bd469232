-- ===== src/Cron/Tests.antt =====
-- The lock of a task at the samples.
use betting_service.Prelude.{◌≡◌, refl}
use betting_service.Table.{exists_where}
use betting_service.Store.{ok}
use betting_service.Store.Action.{throw, return}
use betting_service.Store.Keeps.{Keeps-throw}
use betting_service.Cron.{exclusively, is_running}
use betting_service.Cron.Lock.{exclusively_locks}
use betting_service.Samples.{store}

exclusively_locks_example :
    let t = (exclusively "mts.timeout" throw store).1 in
    exclusively "mts.timeout" (return tt) t ≡ (ok tt, t)
unfolding is_running exists_where throw
exclusively_locks_example =
    exclusively_locks "mts.timeout" throw (return tt) store refl (λ c. Keeps-throw) refl
