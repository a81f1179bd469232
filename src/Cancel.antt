-- ===== src/Cancel.antt =====
-- Cancelling the bets on a market: `processBetCancelMessage` and `processOutrightsBetCancelMessage`
-- of src/consumers/workers/bet.cancel.service.ts.
pub mod Follows
mod Tests
pub mod Refunds
use betting_service.Prelude.{
  ℕ, String, Bool, true, ◌&&◌, ◌==◌, ltb, leb, str_eq, if◌then◌else◌, List, [], ◌∷◌, map, Option,
  none, some,
}
use betting_service.Int.{◌=ℤ◌, pos, bet_pending, bet_cancelled}
use betting_service.Table.{select_where, update_where, exists_where}
use betting_service.Entity.Bet.{Bet}
use betting_service.Entity.Slip.{BetSlip}
use betting_service.Entity.Records.{BetCancel}
use betting_service.Store.{Store, System, Payload, sport, bet_cancelled as cancelled_subject}
use betting_service.Store.Action.{
  Action, return, throw, get, modify, ◌>>=◌, ◌>>◌, for_each, call_credit,
}

pub record Market : Type 0 where
  pub id : ℕ
  pub specifier : String

-- A message; a time that is absent or empty is `none`.
pub record CancelMessage : Type 0 where
  pub event_id : ℕ
  pub event_type : String
  pub event_prefix : String
  pub start_time : Option ℕ
  pub end_time : Option ℕ
  pub markets : List Market

-- `created BETWEEN ? AND ?`, `created < ?`, `created > ?`, or no condition
abbrev pub in_window : Option ℕ → Option ℕ → ℕ → Bool
in_window (some from) (some to) created = leb from created && leb created to
in_window none (some to) created = ltb created to
in_window (some from) none created = ltb from created
in_window none none created = true

pub same_cancel : BetCancel → BetCancel → Bool
same_cancel c d =
    (d.event_id == c.event_id) && (d.market_id == c.market_id) && str_eq d.specifier c.specifier

pub is_in : List ℕ → ℕ → Bool
is_in ids id = exists_where (λ x. x == id) ids

module _ {N : Type 0} where
  -- The slips that a market of a message cancels. An outright names the kind of the event too.
  pub match_slip : CancelMessage → Market → BetSlip N → Bool
  match_slip msg market b =
      str_eq b.specifier market.specifier
      && (b.market_id == market.id)
      && (b.match_id == msg.event_id)
      && (b.status =ℤ pos 0)
      && in_window msg.start_time msg.end_time b.created

  pub outright_slip : CancelMessage → Market → BetSlip N → Bool
  outright_slip msg market b =
      str_eq b.event_prefix msg.event_prefix
      && str_eq b.event_type msg.event_type
      && match_slip msg market b

  abbrev pub cancel_slip : BetSlip N → BetSlip N
  cancel_slip b = record b { status = bet_cancelled }

  abbrev pub cancel_bet : Bet N → Bet N
  cancel_bet b = record b { status = bet_cancelled }

  -- The query selects neither `source`, `username`, `betslip_id` nor `bonus_id`.
  abbrev pub refund_payload : Bet N → Payload N
  refund_payload b = record {
    subject = cancelled_subject;
    amount = b.stake;
    user_id = b.user_id;
    username = none;
    client_id = b.client_id;
    source = none;
    betslip_id = none;
    wallet = sport;
  }

  pub refund : System N → Bet N → Action N (Unit {0})
  refund sys b = do _ ← call_credit sys (refund_payload b); return tt

  -- `betCancelRepository.save`: the unique index on the event, the market and the specifier may refuse
  -- the row.
  pub save_cancel : BetCancel → Action N (Unit {0})
  save_cancel c = do
    taken ← get (λ s. exists_where (same_cancel c) s.cancels)
    (if taken then throw else modify (λ s. record s { cancels = c ∷ s.cancels }))

  -- After it.
  pub cancel_saved : System N → List ℕ → Action N (Unit {0})
  cancel_saved sys ids = do
    modify λ s. record s { bets = update_where (λ b. is_in ids b.id) cancel_bet s.bets }
    cancelled ← get (λ s. select_where (λ b. (b.status =ℤ bet_pending) && is_in ids b.id) s.bets)
    for_each cancelled (refund sys)

  -- From `betCancelRepository.save` on, for the bets `ids`.
  pub cancel_bets :
      System N → CancelMessage → (event_type : String) → Market → List ℕ → Action N (Unit {0})
  cancel_bets sys msg event_type market ids = do
    save_cancel (record {
      event_id = msg.event_id;
      event_type = event_type;
      event_prefix = msg.event_prefix;
      market_id = market.id;
      specifier = market.specifier;
      start_time = msg.start_time;
    })
    cancel_saved sys ids

  pub cancel_found : System N → CancelMessage → String → Market → List ℕ → Action N (Unit {0})
  cancel_found sys msg event_type market [] = return tt
  cancel_found sys msg event_type market (id ∷ ids) =
      cancel_bets sys msg event_type market (id ∷ ids)

  -- One turn of the loop over the markets.
  pub cancel_market :
      System N
      → (CancelMessage → Market → BetSlip N → Bool)
      → CancelMessage
      → String
      → Market
      → Action N (Unit {0})
  cancel_market sys in_scope msg event_type market = do
    rows ← get (λ s. select_where (in_scope msg market) s.slips)
    modify λ s. record s { slips = update_where (in_scope msg market) cancel_slip s.slips }
    cancel_found sys msg event_type market (map (λ b. b.bet_id) rows)

  pub process_bet_cancel : System N → CancelMessage → Action N ℕ
  process_bet_cancel sys msg =
      for_each msg.markets (cancel_market sys match_slip msg "match") >> return 1

  pub process_outrights_bet_cancel : System N → CancelMessage → Action N ℕ
  process_outrights_bet_cancel sys msg =
      for_each msg.markets (cancel_market sys outright_slip msg msg.event_type) >> return 1
