-- ===== src/Placing/Booking.antt =====
-- What `placeBet` (src/bets/bets.service.ts) does for a bet that is only booked.
use betting_service.Prelude.{
  ℕ, ◌==◌, ◌≡◌, List, [], ◌∷◌, Option, none, some, Bool, false, inl, inr, Option-cases,
}
use betting_service.Entity.Bet.{Bet}
use betting_service.Store.{Store, System, Event, check_bonus}
use betting_service.Store.Action.{Action, when}
use betting_service.Store.Keeps.{
  Keeps, keeping, Leaves, Leaves-at, Keeps-return, Keeps-throw, Keeps-if, Keeps-bind, Keeps-modify,
}
use betting_service.Placing.Text.{descriptions}
use betting_service.Placing.Quoting.{
  PlaceBetRequest, Services, Validation, Quote, Selection, Reading, quoted, refused, PlaceReply,
}
use betting_service.Placing.Quoting.Odds.{reply-Keeps, read_selections-Keeps}
use betting_service.Placing.Rows.{save_bet, save_slip, insert_bet}
use betting_service.Placing.{
  place_bet, check_request, checked, after_reading, validated, bonus_for, with_bonus, save,
  after_save,
}

-- The calls that are no question whether a bonus may be used.
unfoldable pub orders : {N : Type 0} → List (Event N) → List (Event N)
orders [] = []
orders (check_bonus c u stake ∷ es) = orders es
orders (e ∷ es) = e ∷ orders es

Keeps-skip :
    {N : Type 0} {P : Store N → Type 0} (b : Bool) (m : Action N (Unit {0}))
    → b ≡ false
    → Keeps P (when b m)
unfolding when
Keeps-skip b m e = rw e (record { at = λ s h. h })

module _ {N : Type 0} (sys : System N) (svc : Services N) (req : PlaceBetRequest N)
    (booked : (req.is_booking == 0) ≡ false) where
  abbrev LeavesCalls : {A : Type 0} → Action N A → Type 0
  LeavesCalls {A = A} = Leaves {N = N} {A = A} {B = List (Event N)} (λ s. orders s.sent)

  save_bet-calls :
      (validation : Validation N) (bonus_id : Option ℕ) (quotes : List (Quote N)) (total p : N)
      → LeavesCalls (save_bet sys svc req validation bonus_id quotes total p)
  unfolding save_bet insert_bet
  save_bet-calls validation bonus_id quotes total p c =
      elim (Option-cases (descriptions req.bet_type quotes)) [
        | inl e ↦ rw (save_bet, e) Keeps-throw
        | inr (texts, e) ↦ rw (save_bet, e) (search (keeping))
      ]

  save_slip-calls : (bet : Bet N) (q : Quote N) → LeavesCalls (save_slip sys req bet q)
  unfolding save_slip
  save_slip-calls bet q c = search (keeping) depth 8

  save-calls :
      (validation : Validation N) (bonus_id : Option ℕ) (quotes : List (Quote N)) (total p : N)
      → LeavesCalls (save sys svc req validation bonus_id quotes total p)
  unfolding save
  save-calls validation bonus_id quotes total p c =
      search (keeping, save_bet-calls, save_slip-calls, Keeps-skip, booked)

  after_save-calls :
      (validation : Validation N) (quotes : List (Quote N)) (bet : Option (Bet N))
      → LeavesCalls (after_save sys req validation quotes bet)
  unfolding after_save
  after_save-calls validation quotes none c = Keeps-return _
  after_save-calls validation quotes (some bet) c = search (keeping, Keeps-skip, booked)

  with_bonus-calls :
      (validation : Validation N) (quotes : List (Quote N)) (total p : N)
      (bonus : Option (Option ℕ))
      → LeavesCalls (with_bonus sys svc req validation quotes total p bonus)
  unfolding with_bonus
  with_bonus-calls validation quotes total p none c = Keeps-return _
  with_bonus-calls validation quotes total p (some bonus_id) c =
      search (keeping, save-calls, after_save-calls)

  bonus_for-calls : LeavesCalls (bonus_for svc req)
  unfolding bonus_for orders
  bonus_for-calls c =
      Keeps-if req.use_bonus _ _
        (Keeps-bind _ _ (Keeps-modify _ (λ s h. h))
          (λ _. Keeps-bind _ _ (reply-Keeps sys svc _) (λ b. Keeps-return _)))
        (Keeps-return _)

  validated-calls :
      (quotes : List (Quote N)) (total p : N) (answer : Option (Validation N))
      → LeavesCalls (validated sys svc req quotes total p answer)
  unfolding validated
  validated-calls quotes total p none c = Keeps-return _
  validated-calls quotes total p (some validation) c =
      search (keeping, bonus_for-calls, with_bonus-calls)

  after_reading-calls : (r : Reading N) → LeavesCalls (after_reading sys svc req r)
  unfolding after_reading
  after_reading-calls (refused r) c = Keeps-return _
  after_reading-calls (quoted quotes total p) c =
      search (keeping, reply-Keeps sys svc, validated-calls)

  checked-calls :
      (r : Option (PlaceReply N)) (selections : Option (List (Selection N)))
      → LeavesCalls (checked sys svc req r selections)
  unfolding checked
  checked-calls (some r) selections c = Keeps-return _
  checked-calls none none c = Keeps-return _
  checked-calls none (some selections) c =
      search (keeping, read_selections-Keeps, after_reading-calls)

  -- Booking a bet may ask the bonus service whether a bonus may be used, but debits no wallet, places
  -- no bonus and sends nothing to MTS, from every store and whatever fails.
  pub place_bet-books : (s : Store N) → orders (place_bet sys svc req s).1.sent ≡ orders s.sent
  unfolding place_bet
  place_bet-books s =
      Leaves-at (λ t. orders t.sent) (place_bet sys svc req)
        (checked-calls (check_request sys req) req.selections) s
