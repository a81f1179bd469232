-- ===== src/Cron/Lock.antt =====
-- A task runs only while its row is free, and leaves the row free only if it returns.
use betting_service.Prelude.{
  String, ◌≡◌, true, false, ◌&&◌, List, [], ◌∷◌, str_eq, arith, Bool-cases, inl, inr,
}
use text.Mathlib.TextPositions.{eq_refl}
use betting_service.Int.{ℤ, pos, ◌=ℤ◌}
use betting_service.Entity.Records.{Cronjob}
use betting_service.Table.{update_where, exists_where}
use betting_service.Table.Rows.{exists-update_none, exists-weaken}
use betting_service.Store.{Store, ok, thrown}
use betting_service.Store.Action.{Action, steps, continue}
use betting_service.Store.Keeps.{
  Keeps, Keeps-bind, Keeps-get, Keeps-if, Keeps-return, Keeps-modify, Leaves, Leaves-at,
}
use betting_service.Cron.{is_running, write_cronjob, exclusively}

written_running :
    (name : String) (cs : List Cronjob)
    → exists_where (λ c. str_eq c.name name) cs ≡ true
    → exists_where
        (λ c. str_eq c.name name && (c.status =ℤ pos 1))
        (update_where (λ c. str_eq c.name name) (λ c. record c { status = pos 1 }) cs)
      ≡ true
unfolding exists_where update_where
written_running name [] h = cc
written_running name (c ∷ cs) h = ground (arith, written_running name cs)

module _ {N : Type 0} where
  -- After a row is written as free its task is not running, and after it is written as taken it is.
  write_cronjob-free :
      (name : String) (s : Store N) → is_running name (write_cronjob name (pos 0) s) ≡ false
  unfolding is_running write_cronjob exists_where
  write_cronjob-free name s =
      elim (Bool-cases (exists_where (λ c. str_eq c.name name) s.cronjobs)) [
        | inl e ↦ rw e (
            exists-update_none (λ c. str_eq c.name name)
              (λ c. str_eq c.name name && (c.status =ℤ pos 1)) _ (λ c h. ground arith)
              (λ c h. ground arith) s.cronjobs)
        | inr e ↦
            rw (e, eq_refl)
              (exists-weaken (λ c. str_eq c.name name)
                (λ c. str_eq c.name name && (c.status =ℤ pos 1)) (λ c h. ground arith) s.cronjobs e)
      ]

  write_cronjob-running :
      (name : String) (s : Store N) → is_running name (write_cronjob name (pos 1) s) ≡ true
  unfolding is_running write_cronjob exists_where
  write_cronjob-running name s = ground (arith, written_running name s.cronjobs, eq_refl name)

  -- What the writes of the row and the task keep, the task under its lock keeps.
  pub Keeps-exclusively {ℓ} :
      {P : Store N → Type ℓ} (name : String) (body : Action N (Unit {0}))
      → ((k : ℤ) (s : Store N) → P s → P (write_cronjob name k s))
      → Keeps P body
      → Keeps P (exclusively name body)
  unfolding exclusively
  Keeps-exclusively name body hw hb = Keeps-bind _ _ (Keeps-get _) λ running.
      Keeps-if running _ _ (Keeps-return tt) (
        Keeps-bind _ _ (Keeps-bind _ _ (Keeps-modify _ (hw (pos 1))) (λ _. hb))
          (λ _. Keeps-modify _ (hw (pos 0))))

  -- While its row says that a task is running, starting it again does nothing.
  exclusively-running :
      (name : String) (body : Action N (Unit {0})) (s : Store N)
      → is_running name s ≡ true
      → exclusively name body s ≡ (ok tt, s)
  unfolding exclusively steps
  exclusively-running name body s h = rw h

  -- When a task is not running, a run of it leaves its row free if the run returns.
  pub exclusively-frees :
      (name : String) (body : Action N (Unit {0})) (s : Store N)
      → is_running name s ≡ false
      → (body (write_cronjob name (pos 1) s)).0 ≡ ok tt
      → is_running name (exclusively name body s).1 ≡ false
  unfolding exclusively steps
  exclusively-frees name body s free returned =
      rw (free, returned, continue)
        (write_cronjob-free name (body (write_cronjob name (pos 1) s)).1)

  exclusively-stays :
      (name : String) (body : Action N (Unit {0})) (s : Store N)
      → is_running name s ≡ false
      → Leaves (λ t. t.cronjobs) body
      → (body (write_cronjob name (pos 1) s)).0 ≡ thrown
      → is_running name (exclusively name body s).1 ≡ true
  unfolding exclusively is_running steps
  exclusively-stays name body s free leaves threw =
      rw (free, threw, continue, Leaves-at (λ t. t.cronjobs) body leaves)
        (write_cronjob-running name s)

  -- If a task that was not running throws, and does not itself write the rows of the tasks, its row
  -- stays taken: every later start of it, whatever the task then is, returns and changes nothing.
  pub exclusively_locks :
      (name : String) (body again : Action N (Unit {0})) (s : Store N)
      → is_running name s ≡ false
      → Leaves (λ t. t.cronjobs) body
      → (body (write_cronjob name (pos 1) s)).0 ≡ thrown
      → let t = (exclusively name body s).1 in exclusively name again t ≡ (ok tt, t)
  exclusively_locks name body again s free leaves threw =
      exclusively-running name again _ (exclusively-stays name body s free leaves threw)

  -- Writing the row of a task touches no other table that the tasks use, and calls no service.
  pub write_cronjob-rest :
      (name : String) (k : ℤ) (s : Store N)
      → let t = write_cronjob name k s in
        (t.sent ≡ s.sent) × (t.statuses ≡ s.statuses) × (t.bets ≡ s.bets)
  unfolding write_cronjob
  write_cronjob-rest name k s = ground arith
