-- ===== src/Placing/Follows.antt =====
-- Placing and finding bets follows the ledger (src/bets/bets.service.ts).
use betting_service.Prelude.{ℕ, String, List, [], ◌∷◌, Option, none, some, inl, inr, Option-cases}
use betting_service.Entity.Bet.{Bet}
use betting_service.Entity.Slip.{BetSlip}
use betting_service.Store.{System}
use betting_service.Store.Keeps.{Keeps-return, Keeps-throw, Keeps-bind}
use betting_service.Ledger.{Ledger}
use betting_service.Ledger.Rules.{Follows, following}
use betting_service.Placing.Text.{descriptions}
use betting_service.Placing.Quoting.{
  PlaceBetRequest, Services, Validation, Quote, Selection, Reading, quoted, refused, PlaceReply,
}
use betting_service.Placing.Quoting.Odds.{reply-Keeps, get_odds-Keeps, read_selections-Keeps}
use betting_service.Placing.Rows.{save_bet, save_slip, insert_bet}
use betting_service.Placing.Coupon.{find_coupon, coupon_of, offered_slips}
use betting_service.Placing.{
  place_bet, check_request, checked, after_reading, validated, bonus_for, with_bonus, save,
  after_save, charge,
}

module _ {N : Type 0} (l : Ledger N) (sys : System N) (svc : Services N)
    (req : PlaceBetRequest N) where
  insert_bet-Follows : (bet : ℕ → Bet N) → Follows l (insert_bet sys bet)
  unfolding insert_bet
  insert_bet-Follows bet = search following depth 8

  save_bet-Follows :
      (validation : Validation N) (bonus_id : Option ℕ) (quotes : List (Quote N)) (total p : N)
      → Follows l (save_bet sys svc req validation bonus_id quotes total p)
  unfolding save_bet
  save_bet-Follows validation bonus_id quotes total p =
      elim (Option-cases (descriptions req.bet_type quotes)) [
        | inl e ↦ rw (save_bet, e) Keeps-throw
        | inr (texts, e) ↦ rw (save_bet, e) (insert_bet-Follows _)
      ]

  charge-Follows : (bet : Bet N) → Follows l (charge sys req bet)
  unfolding charge
  charge-Follows bet = search following depth 8

  save-Follows :
      (validation : Validation N) (bonus_id : Option ℕ) (quotes : List (Quote N)) (total p : N)
      → Follows l (save sys svc req validation bonus_id quotes total p)
  unfolding save save_slip
  save-Follows validation bonus_id quotes total p =
      search (following, save_bet-Follows, charge-Follows) depth 9

  after_save-Follows :
      (validation : Validation N) (quotes : List (Quote N)) (bet : Option (Bet N))
      → Follows l (after_save sys req validation quotes bet)
  unfolding after_save
  after_save-Follows validation quotes none = search following
  after_save-Follows validation quotes (some bet) = search following

  with_bonus-Follows :
      (validation : Validation N) (quotes : List (Quote N)) (total p : N)
      (bonus : Option (Option ℕ))
      → Follows l (with_bonus sys svc req validation quotes total p bonus)
  unfolding with_bonus
  with_bonus-Follows validation quotes total p none = search following
  with_bonus-Follows validation quotes total p (some bonus_id) =
      search (following, save-Follows, after_save-Follows)

  validated-Follows :
      (quotes : List (Quote N)) (total p : N) (answer : Option (Validation N))
      → Follows l (validated sys svc req quotes total p answer)
  unfolding validated bonus_for
  validated-Follows quotes total p none = search following
  validated-Follows quotes total p (some validation) =
      search (following, reply-Keeps sys svc, with_bonus-Follows)

  after_reading-Follows : (r : Reading N) → Follows l (after_reading sys svc req r)
  unfolding after_reading
  after_reading-Follows (refused r) = search following
  after_reading-Follows (quoted quotes total p) =
      search (following, reply-Keeps sys svc, validated-Follows)

  checked-Follows :
      (r : Option (PlaceReply N)) (selections : Option (List (Selection N)))
      → Follows l (checked sys svc req r selections)
  unfolding checked
  checked-Follows (some r) selections = search following
  checked-Follows none none = search following
  checked-Follows none (some selections) =
      search (following, read_selections-Keeps, after_reading-Follows)

  pub place_bet-Follows : Follows l (place_bet sys svc req)
  unfolding place_bet
  place_bet-Follows = checked-Follows (check_request sys req) req.selections

module _ {N : Type 0} (l : Ledger N) (sys : System N) (svc : Services N) where
  offered_slips-Follows : (slips : List (BetSlip N)) → Follows l (offered_slips sys svc slips)
  unfolding offered_slips
  offered_slips-Follows [] = search following
  offered_slips-Follows (b ∷ bs) =
      Keeps-bind _ _ (get_odds-Keeps sys svc _)
        (λ odd. Keeps-bind _ _ (offered_slips-Follows bs) (λ rest. Keeps-return _))

  coupon_of-Follows : (booking : Option (Bet N)) → Follows l (coupon_of sys svc booking)
  unfolding coupon_of
  coupon_of-Follows none = search following
  coupon_of-Follows (some booking) = search (following, offered_slips-Follows)

  pub find_coupon-Follows :
      (betslip_id : String) (client_id : ℕ) → Follows l (find_coupon sys svc betslip_id client_id)
  unfolding find_coupon
  find_coupon-Follows betslip_id client_id = search (following, coupon_of-Follows)
