-- ===== src/Placing/Coupon.antt =====
-- A booked bet by its code: `findCoupon` of src/bets/bets.service.ts.
use betting_service.Prelude.{
  ℕ, ◌==◌, ◌&&◌, String, str_eq, if◌then◌else◌, List, [], ◌∷◌, Option, none, some,
}
use betting_service.Table.{find_where, select_where}
use betting_service.Entity.Bet.{Bet}
use betting_service.Entity.Slip.{BetSlip}
use betting_service.Store.{System, selects_bet}
use betting_service.Store.Action.{Action, return, get, ◌>>=◌, try_catch, statement}
use betting_service.Placing.Quoting.{OddsRequest, Services, get_odds}

-- The reply: the bet, whose stake, code, odds and payout it copies, and the slips whose columns are its
-- selections.
pub data CouponReply (N : Type 0) : Type 0 where
  found : Bet N → List (BetSlip N) → CouponReply N
  not_found unable : CouponReply N

module _ {N : Type 0} where
  abbrev pub slip_request : BetSlip N → OddsRequest
  slip_request b = record {
    event_type = b.event_type;
    event_prefix = b.event_prefix;
    event_id = b.match_id;
    producer_id = b.producer_id;
    market_id = b.market_id;
    specifier = b.specifier;
    outcome_id = b.outcome_id;
  }

  -- The slips that are offered now, each with the odds of the time when it was booked.
  unfoldable pub offered_slips :
      System N → Services N → List (BetSlip N) → Action N (List (BetSlip N))
  offered_slips sys svc [] = return []
  offered_slips sys svc (b ∷ bs) = do
    odd ← get_odds sys svc (slip_request b)
    rest ← offered_slips sys svc bs
    return (if sys.floats.less sys.floats.zero_num odd then b ∷ rest else rest)

  unfoldable pub coupon_of : System N → Services N → Option (Bet N) → Action N (CouponReply N)
  coupon_of sys svc none = return not_found
  coupon_of sys svc (some booking) = do
    slips ← get (λ s. select_where (λ b. b.bet_id == booking.id) s.slips)
    selections ← offered_slips sys svc slips
    return (found booking selections)

  unfoldable pub find_coupon :
      System N → Services N → (betslip_id : String) → (client_id : ℕ) → Action N (CouponReply N)
  find_coupon sys svc betslip_id client_id =
      try_catch
        (do
          booking ← statement sys selects_bet (
              get (λ s.
                find_where (λ b. str_eq b.betslip_id betslip_id && (b.client_id == client_id))
                  s.bets))
          coupon_of sys svc booking)
        (return unable)
