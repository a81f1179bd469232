-- ===== src/Placing/Outcome.antt =====
-- What `placeBet` (src/bets/bets.service.ts) leaves: the rows, the debit and the message to MTS.
use betting_service.Prelude.{
  ℕ, suc, ◌==◌, ◌≡◌, refl, sym, ap, ◌∙◌, List, [], ◌∷◌, ◌++◌, map, length, Option, none, some, Bool,
  true, false,
}
use betting_service.Entity.Bet.{Bet}
use betting_service.Entity.Slip.{BetSlip}
use betting_service.Table.{exists_where}
use betting_service.Store.{
  Store, System, Result, ok, thrown, debit, submit, inserts_bet, inserts_slip, MtsBet,
}
use betting_service.Store.Action.{
  Action, ◌>>=◌, return, steps, for_each, continue, refuse, when, outcome, call_debit,
}
use betting_service.Store.Loop.{for_each-first}
use betting_service.Placing.Text.{descriptions, Descriptions}
use betting_service.Placing.Quoting.{
  PlaceBetRequest, Services, Validation, Quote, quoted, not_saved, placed, reply, read_selections,
  Selection,
}
use betting_service.Placing.Rows.{
  save_bet, save_slip, insert_bet, bet_of, slip_of, mts_selection, payout, same_selection,
  stored_bet,
}
use betting_service.Placing.{
  place_bet, check_request, checked, after_reading, validated, bonus_for, with_bonus, save,
  after_save, charge, debit_payload,
}
use mathlib.Core.List.{append-nil, append_assoc}

module _ {N : Type 0} (sys : System N) (req : PlaceBetRequest N) where
  -- The slips of a bet, with the identifiers from the one given.
  abbrev pub slips_of : Bet N → List (Quote N) → ℕ → List (BetSlip N)
  slips_of bet [] id = []
  slips_of bet (q ∷ qs) id = slip_of sys req bet q id ∷ slips_of bet qs (suc id)

  abbrev pub after : ℕ → List (Quote N) → ℕ
  after id [] = id
  after id (q ∷ qs) = after (suc id) qs

  abbrev pub with_slips : Bet N → List (Quote N) → Store N → Store N
  with_slips bet qs s = record s {
    slips = s.slips ++ slips_of bet qs s.next_slip;
    next_slip = after s.next_slip qs;
  }

  -- No slip that is there, or is made of an earlier quote, has the unique columns of a quote.
  abbrev pub Unique : Bet N → List (Quote N) → (id : ℕ) → List (BetSlip N) → Type 0
  Unique bet [] id slips = Unit
  Unique bet (q ∷ qs) id slips =
      (exists_where (same_selection bet.id q) slips ≡ false)
      × Unique bet qs (suc id) (slips ++ slip_of sys req bet q id ∷ [])

  loop-writes :
      (bet : Bet N) (qs : List (Quote N)) (s : Store N)
      → sys.fails inserts_slip ≡ false
      → Unique bet qs s.next_slip s.slips
      → for_each qs (save_slip sys req bet) s ≡ (ok tt, with_slips bet qs s)
  unfolding save_slip steps
  loop-writes bet [] s runs unique =
      sym (ap (λ (l : List (BetSlip N)). (ok tt, record s { slips = l })) (append-nil s.slips))
  loop-writes bet (q ∷ qs) s runs (new, unique) =
      for_each-first (save_slip sys req bet) q qs s (with_slips bet (q ∷ []) s)
        (rw (runs, refuse, continue, new) refl)
      ∙ loop-writes bet qs (with_slips bet (q ∷ []) s) runs unique
      ∙ ap
          (λ (l : List (BetSlip N)).
            (ok tt, record s { slips = l; next_slip = after s.next_slip (q ∷ qs) }))
          (append_assoc s.slips (slip_of sys req bet q s.next_slip ∷ [])
            (slips_of bet qs (suc s.next_slip)))

  -- The store with the bet and its slips.
  abbrev pub with_bet : Bet N → List (Quote N) → Store N → Store N
  with_bet bet qs s =
      with_slips bet qs
        (record s { bets = s.bets ++ stored_bet sys.floats bet ∷ []; next_bet = suc s.next_bet })

when-skips :
    {N : Type 0} (b : Bool) (m : Action N (Unit {0})) (s : Store N)
    → b ≡ false
    → when b m s ≡ (ok tt, s)
unfolding when
when-skips b m s e = rw e refl

when-runs :
    {N : Type 0} (b : Bool) (m : Action N (Unit {0})) (s : Store N) → b ≡ true → when b m s ≡ m s
unfolding when
when-runs b m s e = rw e refl

module _ {N : Type 0} (sys : System N) (svc : Services N) (req : PlaceBetRequest N) where
  bonus_for-none : (s : Store N) → req.use_bonus ≡ false → bonus_for svc req s ≡ (ok (some none), s)
  unfolding bonus_for steps
  bonus_for-none s e = rw (bonus_for, e) refl

  charge-debits :
      (bet : Bet N) (s : Store N)
      → req.use_bonus ≡ false
      → charge sys req bet s
        ≡ continue
            (sys.on_debit s.sent (debit_payload req bet))
            (λ _. return tt)
            (record s { sent = debit (debit_payload req bet) ∷ s.sent })
  unfolding charge ◌>>=◌ call_debit
  charge-debits bet s e = rw (charge, when-skips req.use_bonus _ s e, continue) refl

-- A request for a bet that is no booking and uses no bonus passes the checks; the services quote its
-- selections and validate it; and the database takes its rows: its statements run, and no two slips of
-- the bet have the event, market, specifier and outcome in common.
pub record Acceptable {N : Type 0} (sys : System N) (svc : Services N) (req : PlaceBetRequest N)
    (quotes : List (Quote N)) (total probability : N) (validation : Validation N)
    (texts : Descriptions) (s : Store N) : Type 0 where
  pub selections : List (Selection N)
  pub has_selections : req.selections ≡ some selections
  pub is_checked : check_request sys req ≡ none
  pub no_booking : (req.is_booking == 0) ≡ true
  pub no_bonus : req.use_bonus ≡ false
  pub is_quoted :
      read_selections sys svc selections [] sys.floats.one_num sys.floats.one_num s
      ≡ (ok (quoted quotes total probability), s)
  pub is_valid : svc.validate_bet req total ≡ ok (some validation)
  pub is_described : descriptions req.bet_type quotes ≡ some texts
  pub inserts : (sys.fails inserts_bet ≡ false) × (sys.fails inserts_slip ≡ false)
  pub is_unique :
      Unique sys req
        (bet_of sys svc req validation none (length quotes) total probability texts s.next_bet)
        quotes
        s.next_slip
        s.slips

module _ {N : Type 0} (sys : System N) (svc : Services N) (req : PlaceBetRequest N)
    (quotes : List (Quote N)) (total probability : N) (validation : Validation N)
    (texts : Descriptions) (s : Store N)
    (h : Acceptable sys svc req quotes total probability validation texts s) where
  abbrev pub new_bet : Bet N
  new_bet = bet_of sys svc req validation none (length quotes) total probability texts s.next_bet

  -- The store with the bet, its slips and the call of the wallet.
  abbrev pub debited : Store N
  debited = record (with_bet sys req new_bet quotes s) {
    sent = debit (debit_payload req new_bet) ∷ s.sent;
  }

  abbrev pub message : MtsBet N
  message = record {
    bet_id = new_bet.id;
    profile_id = req.user_id;
    ip_address = req.ip_address;
    stake = req.stake;
    currency = validation.currency;
    bets = map mts_selection quotes;
  }

  -- The store with the bet.
  abbrev with_row : Store N
  with_row = record s {
    bets = s.bets ++ stored_bet sys.floats new_bet ∷ [];
    next_bet = suc s.next_bet;
  }

  save_bet-writes :
      save_bet sys svc req validation none quotes total probability s ≡ (ok new_bet, with_row)
  unfolding save_bet insert_bet steps
  save_bet-writes = rw (save_bet, h.is_described, h.inserts.0, refuse, continue) refl

  save-debits :
      (answer : Result (Option N))
      → sys.on_debit s.sent (debit_payload req new_bet) ≡ answer
      → save sys svc req validation none quotes total probability s
        ≡ continue {N = N}
            (continue {N = N} answer (λ _. return tt) debited).0
            (λ _. return new_bet)
            debited
  unfolding save steps
  save-debits (ok balance) e =
      rw
        (
          save_bet-writes,
          continue,
          loop-writes sys req new_bet quotes with_row h.inserts.1 h.is_unique,
          continue,
          when-runs (req.is_booking == 0) _ _ h.no_booking,
          charge-debits sys svc req new_bet _ h.no_bonus,
          e,
          continue,
        )
        refl
  save-debits thrown e =
      rw
        (
          save_bet-writes,
          continue,
          loop-writes sys req new_bet quotes with_row h.inserts.1 h.is_unique,
          continue,
          when-runs (req.is_booking == 0) _ _ h.no_booking,
          charge-debits sys svc req new_bet _ h.no_bonus,
          e,
          continue,
        )
        refl

  place_bet-saves :
      (saved : Result (Bet N)) (t : Store N)
      → save sys svc req validation none quotes total probability s ≡ (saved, t)
      → place_bet sys svc req s ≡ after_save sys req validation quotes (outcome saved) t
  unfolding place_bet checked after_reading validated with_bonus reply steps
  place_bet-saves saved t e =
      ap (λ r. checked sys svc req r req.selections s) h.is_checked
      ∙ ap (λ xs. checked sys svc req none xs s) h.has_selections
      ∙ rw
          (
            h.is_quoted,
            continue,
            after_reading,
            h.is_valid,
            continue,
            validated,
            bonus_for-none sys svc req s h.no_bonus,
            continue,
            with_bonus,
            e,
          )
          refl

  -- If the request is acceptable, the wallet answers anything at all and the message to MTS is taken,
  -- then the bet is placed: it has one row, with the code and the payout that the reply names, and one
  -- slip for each selection, in order, as the DECIMAL columns hold their numbers; the wallet is asked once for the stake, then MTS once for
  -- the bet.
  pub place_bet-writes :
      (balance : Option N)
      → sys.on_debit s.sent (debit_payload req new_bet) ≡ ok balance
      → sys.on_submit (debit (debit_payload req new_bet) ∷ s.sent) message ≡ ok tt
      → place_bet sys svc req s ≡ (
        ok (placed svc.betslip_id req.stake (payout sys req validation total) total),
        record debited { sent = submit message ∷ debited.sent },
      )
  unfolding after_save steps
  place_bet-writes balance paid taken =
      place_bet-saves (ok new_bet) debited (save-debits (ok balance) paid)
      ∙ rw (after_save, when-runs (req.is_booking == 0) _ _ h.no_booking, taken, continue) refl

  -- If the request is acceptable, but the call of the wallet fails, the reply is that the bet was not
  -- saved; and the bet stays, open and with all its slips, as after a call that succeeds. MTS gets
  -- no message.
  pub place_bet-unpaid :
      sys.on_debit s.sent (debit_payload req new_bet) ≡ thrown
      → place_bet sys svc req s ≡ (ok not_saved, debited)
  unfolding after_save return
  place_bet-unpaid unpaid = place_bet-saves thrown debited (save-debits thrown unpaid)
