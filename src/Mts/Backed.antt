-- ===== src/Mts/Backed.antt =====
-- Every refund of the MTS handlers is backed by a row of bet_status of its own.
use betting_service.Prelude.{
  ℕ, ◌+◌, ◌≤◌, suc, List, [], ◌∷◌, Option, none, some, arith, ◌==◌, length, Bool-cases, inl, inr,
  String, ap,
}
use betting_service.Entity.Bet.{Bet}
use betting_service.Entity.Records.{BetStatus}
use betting_service.Int.{ℤ}
use betting_service.Cron.{write_cronjob}
use betting_service.Table.Rows.{length-update}
use betting_service.Store.{
  Store, Result, ok, thrown, System, Event, credit, debit, settle_bonus, Subject, bet_rejected_mts,
  bet_cancelled_mts_timeout, Result, ok, place_bonus, submit, check_bonus,
}
use betting_service.Cron.Lock.{Keeps-exclusively, write_cronjob-rest}
use betting_service.Store.Action.{Action, continue, ◌>>=◌, ◌>>◌, when, steps, call_debit, continue}
use betting_service.Store.Keeps.{Keeps, keeping}
use betting_service.Mts.{
  has_status, save_status, refund, revert, reject, process_bet_rejected, retract, debit_paid,
  cancel_unanswered, time_out, time_out_row, cancel_timed_out, process_bet_accepted, upsert_status,
  task_mts_timeout, Action, when,
}

-- The credits of the two MTS handlers.
abbrev pub is_mts : Subject → ℕ
is_mts bet_rejected_mts = 1
is_mts bet_cancelled_mts_timeout = 1
is_mts _ = 0

pub refunds : {N : Type 0} → List (Event N) → ℕ
refunds [] = 0
refunds (credit p ∷ es) = is_mts p.subject + refunds es
refunds (debit p ∷ es) = refunds es
refunds (settle_bonus q ∷ es) = refunds es
refunds (place_bonus q ∷ es) = refunds es
refunds (submit q ∷ es) = refunds es
refunds (check_bonus c u stake ∷ es) = refunds es

is_mts-le : (x : Subject) → is_mts x ≤ 1
is_mts-le bet_rejected_mts = omega arith
is_mts-le x = omega arith

-- A message of the MTS, or a run of the task that cancels what it left unanswered.
pub data Message (N : Type 0) : Type 0 where
  accepted : ℕ → Message N
  rejected : ℕ → List ℕ → Message N
  timeout : Message N

module _ {N : Type 0} where
  -- Whether a handler returns or throws, the next message finds what it left.
  pub handle : System N → Message N → Store N → Store N
  handle sys (accepted id) s = (process_bet_accepted id s).1
  handle sys (rejected id reason) s = (process_bet_rejected sys id reason s).1
  handle sys timeout s = (task_mts_timeout sys s).1

  pub handle_all : List (System N × Message N) → Store N → Store N
  handle_all [] s = s
  handle_all ((sys, m) ∷ ms) s = handle_all ms (handle sys m s)

  module _ (a b : ℕ) where
    -- The refunds exceed the rows by no more than they did, and here by one less.
    abbrev Within : Store N → Type 0
    Within s = refunds s.sent + a ≤ b + length s.statuses

    abbrev Slack : Store N → Type 0
    Slack s = suc (refunds s.sent + a) ≤ b + length s.statuses

    refund-Within :
        (sys : System N) (subject : Subject) (bet : Option (Bet N)) (s : Store N)
        → Slack s
        → Within (refund sys subject bet s).1
    unfolding refund refunds steps
    refund-Within sys subject none s h = omega arith
    refund-Within sys subject (some bet) s h = ground (arith, is_mts-le subject)

    revert-Within : (sys : System N) (id : ℕ) (s : Store N) → Slack s → Within (revert sys id s).1
    unfolding revert steps
    revert-Within sys id s h = refund-Within sys _ _ _ h

    cancel_unanswered-Within :
        (sys : System N) (row : Bet N) (s : Store N)
        → Slack s
        → Within (cancel_unanswered sys row s).1
    unfolding cancel_unanswered steps
    cancel_unanswered-Within sys row s h = refund-Within sys _ _ _ h

    debit_paid-Slack : (sys : System N) (row : Bet N) → Keeps Slack (debit_paid sys row)
    unfolding debit_paid refunds when ◌>>=◌ call_debit
    debit_paid-Slack sys row = search keeping

    after_Slack :
        (r : Result (Unit {0})) (k : Action N (Unit {0})) (t : Store N)
        → Slack t
        → ((s : Store N) → Slack s → Within (k s).1)
        → Within (continue r (λ _. k) t).1
    after_Slack (ok x) k t h keep = keep t h
    after_Slack thrown k t h keep = omega arith

    retract-Within :
        (sys : System N) (row : Bet N) (s : Store N) → Slack s → Within (retract sys row s).1
    unfolding retract steps
    retract-Within sys row s h =
        after_Slack (debit_paid sys row s).0 (cancel_unanswered sys row) (debit_paid sys row s).1
          ((debit_paid-Slack sys row).at s h) (cancel_unanswered-Within sys row)

    -- A status is saved before the refund is made.
    save_then :
        (st : BetStatus) (m : Action N (Unit {0})) (s : Store N)
        → ((t : Store N) → Slack t → Within (m t).1)
        → Within s
        → Within ((save_status st >> m) s).1
    unfolding save_status steps
    save_then st m s keep h = elim (Bool-cases (has_status st.bet_id s)) [
      | inl e ↦ rw e h
      | inr e ↦ rw e (keep _ (omega arith))
    ]

    reject-Within :
        (sys : System N) (id : ℕ) (reason : List ℕ) → Keeps Within (reject sys id reason)
    unfolding reject
    reject-Within sys id reason = record { at = λ s h. save_then _ _ s (revert-Within sys id) h }

    time_out-Within : (sys : System N) (row : Bet N) → Keeps Within (time_out sys row)
    unfolding time_out
    time_out-Within sys row = record { at = λ s h. save_then _ _ s (retract-Within sys row) h }

    cancel_timed_out-Within : (sys : System N) → Keeps Within (cancel_timed_out sys)
    unfolding cancel_timed_out time_out_row
    cancel_timed_out-Within sys = search (keeping, time_out-Within)

    write_cronjob-Within :
        (name : String) (k : ℤ) (s : Store N) → Within s → Within (write_cronjob name k s)
    write_cronjob-Within name k s h = omega (
      arith,
      ap refunds (write_cronjob-rest name k s).0,
      ap length (write_cronjob-rest name k s).1,
    )

    upsert-Within : (st : BetStatus) (s : Store N) → Within s → Within (upsert_status st s)
    unfolding upsert_status
    upsert-Within st s h = ground (
      arith,
      length-update (λ x. x.bet_id == st.bet_id)
          (λ x. record x { status = st.status; description = st.description }) s.statuses,
    )

    accepted-Within : (id : ℕ) → Keeps Within (process_bet_accepted id)
    unfolding process_bet_accepted
    accepted-Within id = search (keeping, upsert-Within)

    rejected-Within :
        (sys : System N) (id : ℕ) (reason : List ℕ)
        → Keeps Within (process_bet_rejected sys id reason)
    unfolding process_bet_rejected
    rejected-Within sys id reason = search (keeping, reject-Within)

    timeout-Within : (sys : System N) → Keeps Within (task_mts_timeout sys)
    unfolding task_mts_timeout
    timeout-Within sys =
        Keeps-exclusively _ _ (write_cronjob-Within "mts.timeout") (cancel_timed_out-Within sys)

    handle-Within :
        (sys : System N) (m : Message N) (s : Store N) → Within s → Within (handle sys m s)
    unfolding handle
    handle-Within sys (accepted id) s h = (accepted-Within id).at s h
    handle-Within sys (rejected id reason) s h = (rejected-Within sys id reason).at s h
    handle-Within sys timeout s h = (timeout-Within sys).at s h

    handle_all-Within :
        (ms : List (System N × Message N)) (s : Store N) → Within s → Within (handle_all ms s)
    unfolding handle_all
    handle_all-Within [] s h = h
    handle_all-Within ((sys, m) ∷ ms) s h =
        handle_all-Within ms (handle sys m s) (handle-Within sys m s h)

  -- Over any run of messages and timeouts, whatever throws on the way, the MTS handlers make no more
  -- refunds than they add rows to bet_status.
  pub handle_all-backed :
      (ms : List (System N × Message N)) (s : Store N)
      → let t = handle_all ms s in
        refunds t.sent + length s.statuses ≤ refunds s.sent + length t.statuses
  handle_all-backed ms s = handle_all-Within (length s.statuses) (refunds s.sent) ms s (omega arith)
