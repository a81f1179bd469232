-- ===== src/Listing/Offer.antt =====
-- The cash-out amount that `findAll` of src/bets/bets.service.ts lists, and `processCashout` of
-- src/bets/cashout.service.ts.
use betting_service.Prelude.{
  ◌==◌, ◌≡◌, refl, true, false, List, [], ◌∷◌, some, Bool-cases, inl, inr, sym,
}
use betting_service.Int.{◌=ℤ◌, bet_pending, status_lost}
use betting_service.Floats.{Floats}
use betting_service.Table.{find_where, exists_where, update_where}
use betting_service.Entity.Bet.{Bet}
use betting_service.Entity.Slip.{BetSlip}
use betting_service.Store.{Store, System, ok, credit, inserts_winning, updates_bet}
use betting_service.Cashout.{
  cashout_winning, process_cashout, successful, cashout_payload, cash_bet, get_probability,
}
use betting_service.Cashout.Offer.{
  Accepted, slips_of_bet, price, has_lost, odds_product, probability_product, may_always,
}
use betting_service.Cashout.Paid.{process_cashout-pays}
use betting_service.Listing.{Tally, tally_slip, tally_slips, tally_of, listed_amount, list_bet}

module _ {N : Type 0} (floats : Floats N) (bet : Bet N) where
  step-open :
      (t : Tally N) (b : BetSlip N)
      → (bet.status =ℤ bet_pending) ≡ true
      → (b.won =ℤ status_lost) ≡ false
      → tally_slip floats bet t b ≡ record t {
        odds = floats.mul t.odds b.odds;
        probability = floats.mul t.probability (get_probability floats b.event_type b.odds);
      }
  unfolding tally_slip
  step-open t b pending open_slip = rw (pending, open_slip, may_always bet.bonus_id) refl

  -- On a pending bet with no lost slip the loop makes the products of the slips.
  tally-products :
      (bs : List (BetSlip N)) (t : Tally N)
      → (bet.status =ℤ bet_pending) ≡ true
      → has_lost bs ≡ false
      → let r = tally_slips floats bet t bs in
        (r.odds ≡ odds_product floats t.odds bs)
        × (r.probability ≡ probability_product floats t.probability bs)
        × (r.lost_games ≡ t.lost_games)
  unfolding tally_slips exists_where has_lost
  tally-products [] t pending none_lost = (refl, refl, refl)
  tally-products (b ∷ bs) t pending none_lost = elim (Bool-cases (b.won =ℤ status_lost)) [
    | inl e ↦ absurd (cc (rw e at none_lost))
    | inr e ↦
        rw (tally_slips, step-open t b pending e)
          (tally-products bs
            (record t {
              odds = floats.mul t.odds b.odds;
              probability = floats.mul t.probability (get_probability floats b.event_type b.odds);
            })
            pending (rw e at none_lost))
  ]

module _ {N : Type 0} (sys : System N) (bet : Bet N) (s : Store N) where
  abbrev pub listed_tally : Tally N
  listed_tally = tally_of sys.floats bet (slips_of_bet bet s)

  module _ (pending : (bet.status =ℤ bet_pending) ≡ true)
      (none_lost : has_lost (slips_of_bet bet s) ≡ false)
      (likely : sys.floats.less sys.floats.zero_num listed_tally.probability ≡ true) where
    price-listed : price sys.floats bet s ≡ (list_bet sys s bet).cash_out_amount
    unfolding tally_of list_bet listed_amount
    price-listed =
        let (odds, probability, no_lost) =
          tally-products sys.floats bet (slips_of_bet bet s)
            (record { odds = sys.floats.one_num; probability = sys.floats.one_num; lost_games = 0 })
            pending none_lost in
        rw (sym odds, sym probability, likely, may_always bet.bonus_id, pending, no_lost) refl

    listed-Accepted :
        find_where (λ b. b.id == bet.id) s.bets ≡ some bet
        → (let amount = (list_bet sys s bet).cash_out_amount in
            sys.floats.same amount amount ≡ true)
        → Accepted sys bet.id (list_bet sys s bet).cash_out_amount bet s
    listed-Accepted found same_self = record {
      found = found;
      is_pending = pending;
      none_lost = none_lost;
      is_price = rw price-listed same_self;
    }

    -- The amount that the list of bets offers for a bet is the amount that cashes it out: of a pending
    -- bet, the first of its number, with no lost slip, no winning and a product of probabilities above
    -- zero, a request of the listed amount credits that amount once, adds one winning of it and marks
    -- the bet, both with what a DECIMAL column holds of it, changes no slip and answers with the
    -- balance, if the statements run, the wallet answers with a balance, and the listed amount is equal
    -- to itself, as every number but NaN is.
    pub process_cashout-listed :
        (balance : N)
        → find_where (λ b. b.id == bet.id) s.bets ≡ some bet
        → (let amount = (list_bet sys s bet).cash_out_amount in
            sys.floats.same amount amount ≡ true)
        → sys.fails updates_bet ≡ false
        → sys.fails inserts_winning ≡ false
        → exists_where (λ w. w.bet_id == bet.id) s.winnings ≡ false
        → let amount = (list_bet sys s bet).cash_out_amount in
          sys.on_credit s.sent (cashout_payload amount bet) ≡ ok (some balance)
          → let (r, t) = process_cashout sys bet.id amount s in
            let winning = record (cashout_winning bet.id (sys.floats.decimal amount) bet) {
              id = s.next_winning;
            } in
            (r ≡ ok (successful balance))
            × (t.sent ≡ credit (cashout_payload amount bet) ∷ s.sent)
            × (t.winnings ≡ winning ∷ s.winnings)
            × (t.bets
                ≡ update_where (λ b. b.id == bet.id) (cash_bet (sys.floats.decimal amount)) s.bets)
            × (t.slips ≡ s.slips)
    process_cashout-listed balance found same_self =
        process_cashout-pays sys bet.id (list_bet sys s bet).cash_out_amount bet s balance
          (listed-Accepted found same_self)
