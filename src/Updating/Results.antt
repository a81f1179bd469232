-- ===== src/Updating/Results.antt =====
-- What `updateBet` of src/bets/bets.service.ts writes for a whole bet, and whom it pays.
use betting_service.Prelude.{
  ℕ, ◌==◌, ◌≡◌, refl, Bool, true, false, List, ◌∷◌, Option, some, str_eq, Bool-cases, inl, inr,
  if◌then◌else◌,
}
use betting_service.Int.{
  bet_lost, bet_won, bet_voided, betslip_processing_voided, betslip_processing_cancelled, ℤ,
}
use betting_service.Table.{find_where, exists_where, update_where}
use betting_service.Entity.Bet.{Bet, is_bonus}
use betting_service.Entity.Slip.{BetSlip}
use betting_service.Entity.Records.{Winning}
use betting_service.Store.{
  Store, System, Event, credit, settle_bonus, ok, BonusReply, SettleBet, Payload, updates_bet,
}
use betting_service.Store.{bet_cancelled as cancelled_subject}
use betting_service.Store.Action.{steps, continue, recover, when, refuse}
use betting_service.Closing.{save_winning, winning_of, win_payload}
use betting_service.Mts.{stake_payload}
use betting_service.Updating.{
  Decision, won, lost, void, cancel, other, UpdateBetRequest, update_bet, update_entity,
  update_whole_bet, decide, decision_of, pay_manually, return_stake, settle_bonus_bet, updated,
  purse_of, mark_manually, mark_slip,
}

-- The bonus service and the wallet answer every call, and the UPDATE of a bet runs.
abbrev pub AllAnswer : {N : Type 0} → System N → Type 0
AllAnswer {N} sys =
    ((es : List (Event N)) (q : SettleBet N) → (r : BonusReply N) × (sys.on_settle es q ≡ ok r))
    × ((es : List (Event N)) (p : Payload N) → (r : Option N) × (sys.on_credit es p ≡ ok r))
    × (sys.fails updates_bet ≡ false)

module _ {N : Type 0} where
  abbrev pub bonus_call : System N → Bet N → N → ℤ → List (Event N) → List (Event N)
  bonus_call sys bet amount status es =
      if is_bonus bet.bonus_id
      then settle_bonus
          (record { client_id = bet.client_id; bet_id = bet.id; amount = amount; status = status })
        ∷ es
      else es

  -- The calls of a decision on a bet, before those made earlier.
  abbrev pub calls_of : System N → Decision → Bet N → List (Event N) → List (Event N)
  calls_of sys won bet es =
      credit (win_payload bet (purse_of bet.bonus_id) bet.winning_after_tax)
      ∷ bonus_call sys bet bet.winning_after_tax bet_won es
  calls_of sys lost bet es = bonus_call sys bet sys.floats.zero_num bet_lost es
  calls_of sys other bet es = es
  calls_of sys d bet es =
      credit (stake_payload cancelled_subject bet (purse_of bet.bonus_id))
      ∷ bonus_call sys bet sys.floats.zero_num bet_voided es

  abbrev pub slips_of : Decision → ℕ → List (BetSlip N) → List (BetSlip N)
  slips_of void id slips =
      update_where (λ b. b.bet_id == id) (mark_slip betslip_processing_voided) slips
  slips_of cancel id slips =
      update_where (λ b. b.bet_id == id) (mark_slip betslip_processing_cancelled) slips
  slips_of d id slips = slips

  abbrev pub winnings_of : Decision → Bet N → Store N → List (Winning N)
  winnings_of won bet s = record (winning_of bet.id bet) { id = s.next_winning } ∷ s.winnings
  winnings_of d bet s = s.winnings

  abbrev pub has_winning : Decision → ℕ → Store N → Bool
  has_winning won id s = exists_where (λ w. w.bet_id == id) s.winnings
  has_winning d id s = false

  module _ (sys : System N) (answer : AllAnswer sys) where
    settle_bonus_bet-sends :
        (bet : Bet N) (amount : N) (status : ℤ) (s : Store N)
        → settle_bonus_bet sys bet amount status s
          ≡ (ok tt, record s { sent = bonus_call sys bet amount status s.sent })
    unfolding settle_bonus_bet steps
    settle_bonus_bet-sends bet amount status s = elim (Bool-cases (is_bonus bet.bonus_id)) [
      | inl e ↦
          let (r, a) = answer.0 s.sent (record {
            client_id = bet.client_id;
            bet_id = bet.id;
            amount = amount;
            status = status;
          }) in
          rw (e, when, a, continue) refl
      | inr e ↦ rw (e, when) refl
    ]

    decide-does :
        (d : Decision) (id : ℕ) (bet : Bet N) (s : Store N)
        → has_winning d bet.id s ≡ false
        → let (r, t) = decide sys id d (some bet) s in
          (r ≡ ok tt)
          × (t.sent ≡ calls_of sys d bet s.sent)
          × (t.winnings ≡ winnings_of d bet s)
          × (t.slips ≡ slips_of d id s.slips)
          × (t.bets ≡ s.bets)
    unfolding decide pay_manually return_stake save_winning steps
    decide-does won id bet s h =
        let (r, a) =
          answer.1 (bonus_call sys bet bet.winning_after_tax bet_won s.sent)
            (win_payload bet (purse_of bet.bonus_id) bet.winning_after_tax) in
        rw (settle_bonus_bet-sends bet bet.winning_after_tax bet_won s, continue, h, a)
          (refl, refl, refl, refl, refl)
    decide-does lost id bet s h =
        rw (settle_bonus_bet-sends bet sys.floats.zero_num bet_lost s)
          (refl, refl, refl, refl, refl)
    decide-does void id bet s h =
        let (r, a) =
          answer.1 (bonus_call sys bet sys.floats.zero_num bet_voided s.sent)
            (stake_payload cancelled_subject bet (purse_of bet.bonus_id)) in
        rw (settle_bonus_bet-sends bet sys.floats.zero_num bet_voided s, continue, a)
          (refl, refl, refl, refl, refl)
    decide-does cancel id bet s h =
        let (r, a) =
          answer.1 (bonus_call sys bet sys.floats.zero_num bet_voided s.sent)
            (stake_payload cancelled_subject bet (purse_of bet.bonus_id)) in
        rw (settle_bonus_bet-sends bet sys.floats.zero_num bet_voided s, continue, a)
          (refl, refl, refl, refl, refl)
    decide-does other id bet s h = (refl, refl, refl, refl, refl)

    -- If the bonus service and the wallet answer and the UPDATE runs, an update of a known bet, which has no winning if the
    -- update says that it is won, succeeds: the bet gets the result and the status of the decision, a
    -- winning is added if and only if it is won, the slips are marked if it is voided or cancelled,
    -- and the calls made are those of the decision.
    pub update_bet-writes :
        (req : UpdateBetRequest) (bet : Bet N) (s : Store N)
        → str_eq req.entity_type "bet" ≡ true
        → find_where (λ b. b.id == req.bet_id) s.bets ≡ some bet
        → has_winning (decision_of req.status) bet.id s ≡ false
        → let (r, t) = update_bet sys req s in
          let d = decision_of req.status in
          (r ≡ ok (updated req.entity_type))
          × (t.sent ≡ calls_of sys d bet s.sent)
          × (t.winnings ≡ winnings_of d bet s)
          × (t.slips ≡ slips_of d req.bet_id s.slips)
          × (t.bets ≡ update_where (λ b. b.id == req.bet_id) (mark_manually sys d) s.bets)
    unfolding update_bet update_entity update_whole_bet steps
    update_bet-writes req bet s is_bet found h =
        let (r, calls, rows, slips, bets) =
          decide-does (decision_of req.status) req.bet_id bet s h in
        rw (found, is_bet, r, continue, answer.2, refuse, recover, bets)
          (refl, calls, rows, slips, refl)
