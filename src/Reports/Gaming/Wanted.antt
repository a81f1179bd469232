-- ===== src/Reports/Gaming/Wanted.antt =====
-- Which bets `gamingActivity` of src/bets/report.service.ts counts.
use betting_service.Prelude.{
  ℕ, ◌==◌, ==_self, ◌≡◌, ◌≤◌, ◌⊎◌, not, ◌&&◌, ◌||◌, leb, str_eq, refl, Bool, true, false, inl, inr,
  List, Option, arith,
}
use betting_service.Int.{◌=ℤ◌, bet_cancelled, bet_voided}
use betting_service.Entity.Bet.{Bet}
use betting_service.Store.{Store}
use betting_service.Table.{select_where}
use betting_service.Reports.Gaming.{
  ActivityRequest, activity_rows, is_activity, is_user, is_unset, displays,
}

split : (a b : Bool) → a && b ≡ true → (a ≡ true) × (b ≡ true)
split a b h = ground arith

==_true : {m n : ℕ} → (m == n) ≡ true → m ≡ n
==_true h = ground (arith, h)

leb_le : {m n : ℕ} → leb m n ≡ true → m ≤ n
leb_le h = ground (arith, h)

not-true : {b : Bool} → not b ≡ true → b ≡ false
not-true h = ground (arith, h)

either : (a b : Bool) → a || b ≡ true → (a ≡ true) ⊎ (b ≡ true)
either true b h = inl refl
either false b h = inr h

orelse : (a b : Bool) → (a ≡ true) ⊎ (b ≡ true) → a || b ≡ true
orelse true b h = refl
orelse false b (inl h) = absurd (cc h)
orelse false b (inr h) = h

module _ {N : Type 0} where
  -- What a request for a report asks of a bet; `users` are those that it may be of, if it names one.
  pub record Wanted (q : ActivityRequest) (users : Option (List ℕ)) (b : Bet N) : Type 0 where
    pub placed : b.info.is_booked ≡ 0
    pub of_client : b.client_id ≡ q.client_id
    pub since : q.from ≤ b.created
    pub until : b.created ≤ q.to
    pub not_cancelled : (b.status =ℤ bet_cancelled) ≡ false
    pub not_voided : (b.status =ℤ bet_voided) ≡ false
    pub of_name : (is_unset q.username ≡ true) ⊎ (str_eq b.username q.username ≡ true)
    pub of_type : (is_unset q.bet_type ≡ true) ⊎ (str_eq b.info.bet_type q.bet_type ≡ true)
    pub of_source : (is_unset q.source ≡ true) ⊎ (str_eq b.source q.source ≡ true)
    pub of_event : (is_unset q.event_type ≡ true) ⊎ (str_eq b.info.event_type q.event_type ≡ true)
    pub is_displayed : displays q.display_type b.bonus_id ≡ true
    pub of_user : is_user users b.user_id ≡ true

  is_activity-Wanted :
      (q : ActivityRequest) (users : Option (List ℕ)) (b : Bet N)
      → is_activity q b && is_user users b.user_id ≡ true
      → Wanted q users b
  unfolding is_activity
  is_activity-Wanted q users b h =
      let (h1, user) = split (is_activity q b) (is_user users b.user_id) h in
      let (h2, displayed) = split _ (displays q.display_type b.bonus_id) h1 in
      let (h3, event) =
        split _ (is_unset q.event_type || str_eq b.info.event_type q.event_type) h2 in
      let (h4, source) = split _ (is_unset q.source || str_eq b.source q.source) h3 in
      let (h5, kind) = split _ (is_unset q.bet_type || str_eq b.info.bet_type q.bet_type) h4 in
      let (h6, name) = split _ (is_unset q.username || str_eq b.username q.username) h5 in
      let (h7, voided) = split _ (not (b.status =ℤ bet_voided)) h6 in
      let (h8, cancelled) = split _ (not (b.status =ℤ bet_cancelled)) h7 in
      let (h9, before) = split _ (leb b.created q.to) h8 in
      let (h10, after) = split _ (leb q.from b.created) h9 in
      let (placed, client) = split _ (b.client_id == q.client_id) h10 in
      record {
        placed = ==_true placed;
        of_client = ==_true client;
        since = leb_le after;
        until = leb_le before;
        not_cancelled = not-true cancelled;
        not_voided = not-true voided;
        of_name = either (is_unset q.username) (str_eq b.username q.username) name;
        of_type = either (is_unset q.bet_type) (str_eq b.info.bet_type q.bet_type) kind;
        of_source = either (is_unset q.source) (str_eq b.source q.source) source;
        of_event = either (is_unset q.event_type) (str_eq b.info.event_type q.event_type) event;
        is_displayed = displayed;
        of_user = user;
      }

  Wanted-is_activity :
      (q : ActivityRequest) (users : Option (List ℕ)) (b : Bet N)
      → Wanted q users b
      → is_activity q b && is_user users b.user_id ≡ true
  unfolding is_activity
  Wanted-is_activity q users b w =
      rw
        (
          w.placed,
          w.of_client,
          leb_true w.since,
          leb_true w.until,
          w.not_cancelled,
          w.not_voided,
          orelse (is_unset q.username) (str_eq b.username q.username) w.of_name,
          orelse (is_unset q.bet_type) (str_eq b.info.bet_type q.bet_type) w.of_type,
          orelse (is_unset q.source) (str_eq b.source q.source) w.of_source,
          orelse (is_unset q.event_type) (str_eq b.info.event_type q.event_type) w.of_event,
          w.is_displayed,
          w.of_user,
          ==_self q.client_id,
        )
        refl
    where
      leb_true : {m n : ℕ} → m ≤ n → leb m n ≡ true
      leb_true {m = m} {n = n} h = ground (arith, h)

  -- Rows that are those of the bets that a request asks for, in the order of the table.
  abbrev pub Selects : ActivityRequest → Option (List ℕ) → (bets rows : List (Bet N)) → Type 0
  Selects q users bets rows =
      (p : Bet N → Bool) × (rows ≡ select_where p bets)
      × ((b : Bet N) → (p b ≡ true → Wanted q users b) × (Wanted q users b → p b ≡ true))

  pub activity_rows-Selects :
      (q : ActivityRequest) (users : Option (List ℕ)) (s : Store N)
      → Selects q users s.bets (activity_rows q users s)
  unfolding activity_rows
  activity_rows-Selects q users s = (
    λ b. is_activity q b && is_user users b.user_id,
    refl,
    λ b. (is_activity-Wanted q users b, Wanted-is_activity q users b),
  )
