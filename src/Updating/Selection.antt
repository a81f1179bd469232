-- ===== src/Updating/Selection.antt =====
-- A selection that `updateBet` of src/bets/bets.service.ts voids, and how
-- src/cronjobs/workers/bet.settlement.service.ts then counts it.
use betting_service.Prelude.{
  ℕ, ◌==◌, ◌≡◌, refl, true, false, List, [], ◌∷◌, map, some, arith, str_eq, Bool-cases, inl, inr,
  ap, ◌∙◌,
}
use betting_service.Table.{find_where, exists_where, update_where}
use betting_service.Entity.Bet.{Bet}
use betting_service.Entity.Slip.{BetSlip}
use betting_service.Store.{Store, System, ok}
use betting_service.Store.Action.{steps, continue, recover}
use betting_service.Updating.{
  void, UpdateBetRequest, update_bet, update_entity, update_selection, void_with, decision_of,
  updated, void_selection,
}
use betting_service.Settling.{Verdict, start_tally, tally_slips, verdict_of}
use betting_service.Settling.Tallied.{tally_slips-verdicts, expected-lost, lost_slip}

module _ {N : Type 0} where
  voided-lost :
      (sys : System N) (id bet_id : ℕ) (slip : BetSlip N) (xs : List (BetSlip N))
      → find_where (λ b. b.id == id) xs ≡ some slip
      → slip.bet_id ≡ bet_id
      → exists_where (lost_slip bet_id) (update_where (λ b. b.id == id) (void_selection sys) xs)
        ≡ true
  unfolding find_where exists_where update_where
  voided-lost sys id bet_id slip [] found same = cc
  voided-lost sys id bet_id slip (x ∷ xs) found same = elim (Bool-cases (x.id == id)) [
    | inl e ↦
        let g : x ≡ slip = cc (rw e at found) in
        rw e (ground (arith, ap (λ (b : BetSlip N). b.bet_id) g ∙ same))
    | inr e ↦ rw e (ground (arith, voided-lost sys id bet_id slip xs (rw e at found) same))
  ]

  -- Once a selection has been voided by hand, the counters of `createBetSettlement` count it as a lost
  -- slip, and the verdict from them is that the bet is lost, whatever its other slips are. What resultBet
  -- makes of a bet with another void slip is not said.
  pub void_selection-loses :
      (sys : System N) (req : UpdateBetRequest) (bet row : Bet N) (slip : BetSlip N) (s : Store N)
      → str_eq req.entity_type "bet" ≡ false
      → decision_of req.status ≡ void
      → find_where (λ b. b.id == req.bet_id) s.bets ≡ some bet
      → find_where (λ b. b.id == req.selection_id) s.slips ≡ some slip
      → slip.bet_id ≡ row.id
      → let (r, t) = update_bet sys req s in
        (r ≡ ok (updated req.entity_type))
        × (map verdict_of (tally_slips sys.floats t.slips (start_tally row ∷ []))
            ≡ Verdict.lost ∷ [])
  unfolding update_bet update_entity update_selection void_with steps
  void_selection-loses sys req bet row slip s other_kind is_void found found_slip same =
      rw (found, other_kind, found_slip, is_void, update_selection, void_with, continue, recover)
        (
          refl,
          tally_slips-verdicts sys.floats _ (row ∷ [])
              ∙ ap (λ (v : Verdict). v ∷ [])
                  (expected-lost _ row
                    (voided-lost sys req.selection_id row.id slip s.slips found_slip same)),
        )
