-- ===== src/Mts/Once.antt =====
-- A bet is answered once: after a rejection or a timeout, no later one touches it.
use betting_service.Prelude.{
  ℕ, ◌≡◌, true, false, List, Option, none, some, arith, ◌==◌, Bool-cases, inl, inr, ==_self,
}
use betting_service.Entity.Bet.{Bet}
use betting_service.Entity.Records.{BetStatus}
use betting_service.Table.{exists_where}
use betting_service.Store.{Store, System, Subject}
use betting_service.Store.Action.{steps}
use betting_service.Store.Keeps.{
  Leaves, Keeps-part, bind_after, continue-Keeps, Keeps-return, keeping,
}
use betting_service.Mts.{
  has_status, save_status, refund, revert, reject, process_bet_rejected, retract, debit_paid,
  cancel_unanswered, time_out, is_timed_out,
}

module _ {N : Type 0} where
  refund-statuses :
      (sys : System N) (subject : Subject) (bet : Option (Bet N))
      → Leaves (λ t. t.statuses) (refund sys subject bet)
  unfolding refund
  refund-statuses sys subject none c = search keeping
  refund-statuses sys subject (some bet) c = search keeping

  -- Reverting a rejected bet writes no status, nor does retracting one that timed out.
  revert-statuses : (sys : System N) (id : ℕ) → Leaves (λ t. t.statuses) (revert sys id)
  unfolding revert
  revert-statuses sys id c = search (keeping, refund-statuses)

  retract-statuses : (sys : System N) (row : Bet N) → Leaves (λ t. t.statuses) (retract sys row)
  unfolding retract debit_paid cancel_unanswered
  retract-statuses sys row c = search (keeping, refund-statuses)

  -- Saving a status succeeds or throws, and either way the bet has one.
  save_status-has_status :
      (st : BetStatus) (s : Store N) → has_status st.bet_id (save_status st s).1 ≡ true
  unfolding save_status exists_where steps
  save_status-has_status st s = ground (arith, ==_self st.bet_id)

  reject-has_status :
      (sys : System N) (id : ℕ) (reason : List ℕ) (s : Store N)
      → has_status id (reject sys id reason s).1 ≡ true
  unfolding reject
  reject-has_status sys id reason s =
      bind_after (λ t. has_status id t ≡ true) _ _ s (save_status-has_status _ s)
        (λ _.
          Keeps-part (λ l. exists_where (λ x. x.bet_id == id) l ≡ true) (λ t. t.statuses) _
            (revert-statuses sys id))

  pub time_out-has_status :
      (sys : System N) (row : Bet N) (s : Store N) → has_status row.id (time_out sys row s).1 ≡ true
  unfolding time_out
  time_out-has_status sys row s =
      bind_after (λ t. has_status row.id t ≡ true) _ _ s (save_status-has_status _ s)
        (λ _.
          Keeps-part (λ l. exists_where (λ x. x.bet_id == row.id) l ≡ true) (λ t. t.statuses) _
            (retract-statuses sys row))

  rejected-known :
      (sys : System N) (id : ℕ) (reason : List ℕ) (s : Store N)
      → has_status id s ≡ true
      → (process_bet_rejected sys id reason s).1 ≡ s
  unfolding process_bet_rejected steps
  rejected-known sys id reason s h = rw h

  pub rejected-has_status :
      (sys : System N) (id : ℕ) (reason : List ℕ) (s : Store N)
      → has_status id (process_bet_rejected sys id reason s).1 ≡ true
  unfolding process_bet_rejected steps
  rejected-has_status sys id reason s = elim (Bool-cases (has_status id s)) [
    | inl h ↦ rw h h
    | inr h ↦ rw h (
        continue-Keeps {P = λ t. has_status id t ≡ true} _ _ _ (reject-has_status sys id reason s)
          (λ _. Keeps-return 1))
  ]

  -- A second rejection of a bet changes nothing and calls no service, also where the first one threw.
  pub rejected-rejected :
      (sys sys' : System N) (id : ℕ) (reason reason' : List ℕ) (s : Store N)
      → let t = (process_bet_rejected sys id reason s).1 in
        (process_bet_rejected sys' id reason' t).1 ≡ t
  rejected-rejected sys sys' id reason reason' s =
      rejected-known sys' id reason' _ (rejected-has_status sys id reason s)

  -- A rejection that comes after the bet has timed out changes nothing and calls no service.
  pub rejected-time_out :
      (sys sys' : System N) (row : Bet N) (reason : List ℕ) (s : Store N)
      → let t = (time_out sys row s).1 in (process_bet_rejected sys' row.id reason t).1 ≡ t
  rejected-time_out sys sys' row reason s =
      rejected-known sys' row.id reason _ (time_out-has_status sys row s)

  -- A bet that has been rejected is none that the timeout task takes.
  pub timed_out-rejected :
      (sys sys' : System N) (b : Bet N) (reason : List ℕ) (s : Store N)
      → is_timed_out sys' (process_bet_rejected sys b.id reason s).1 b ≡ false
  unfolding is_timed_out
  timed_out-rejected sys sys' b reason s = rw (rejected-has_status sys b.id reason s)
