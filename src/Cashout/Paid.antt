-- ===== src/Cashout/Paid.antt =====
-- What an accepted request of src/bets/cashout.service.ts writes and pays.
use betting_service.Prelude.{ℕ, ◌==◌, ◌≡◌, refl, false, ◌∷◌, some}
use betting_service.Table.{exists_where, update_where}
use betting_service.Entity.Bet.{Bet}
use betting_service.Store.{Store, System, ok, credit, inserts_winning, updates_bet}
use betting_service.Store.Action.{steps, continue, recover, refuse, outcome}
use betting_service.Closing.{save_winning}
use betting_service.Cashout.{
  process_cashout, cash_out, cash_bet, after_winning, reply_with, cashout_winning, cashout_payload,
  successful, CashoutReply,
}
use betting_service.Cashout.Offer.{Accepted, process_bet-cashes}

module _ {N : Type 0} (sys : System N) (id : ℕ) (amount : N) (bet : Bet N) (s : Store N) where
  cash_out-pays :
      (balance : N)
      → sys.fails updates_bet ≡ false
      → sys.fails inserts_winning ≡ false
      → exists_where (λ w. w.bet_id == id) s.winnings ≡ false
      → sys.on_credit s.sent (cashout_payload amount bet) ≡ ok (some balance)
      → let (r, t) = cash_out sys id amount bet s in
        (r ≡ ok (successful balance))
        × (t.sent ≡ credit (cashout_payload amount bet) ∷ s.sent)
        × (t.winnings
            ≡ record (cashout_winning id (sys.floats.decimal amount) bet) { id = s.next_winning }
              ∷ s.winnings)
        × (t.bets ≡ update_where (λ b. b.id == id) (cash_bet (sys.floats.decimal amount)) s.bets)
        × (t.slips ≡ s.slips)
  unfolding cash_out after_winning reply_with save_winning steps
  cash_out-pays balance updates runs fresh answers =
      rw
        (
          updates, refuse, continue, runs, fresh, outcome, after_winning, answers, continue,
          reply_with,
        )
        (refl, refl, refl, refl, refl)

  process_cashout-Accepted_eq :
      (r : CashoutReply N) (t : Store N)
      → Accepted sys id amount bet s
      → cash_out sys id amount bet s ≡ (ok r, t)
      → process_cashout sys id amount s ≡ (ok r, t)
  unfolding process_cashout steps
  process_cashout-Accepted_eq r t a e =
      rw (a.found, continue, process_bet-cashes sys id amount s bet a, e, recover) refl

  -- An accepted request is paid once and in full, if the statements run, the bet has no winning and the
  -- wallet answers with a balance: the amount is credited in one call, one winning of it is added,
  -- the bet is marked as cashed out, no slip changes, and the reply is the balance.
  pub process_cashout-pays :
      (balance : N)
      → Accepted sys id amount bet s
      → sys.fails updates_bet ≡ false
      → sys.fails inserts_winning ≡ false
      → exists_where (λ w. w.bet_id == id) s.winnings ≡ false
      → sys.on_credit s.sent (cashout_payload amount bet) ≡ ok (some balance)
      → let (r, t) = process_cashout sys id amount s in
        (r ≡ ok (successful balance))
        × (t.sent ≡ credit (cashout_payload amount bet) ∷ s.sent)
        × (t.winnings
            ≡ record (cashout_winning id (sys.floats.decimal amount) bet) { id = s.next_winning }
              ∷ s.winnings)
        × (t.bets ≡ update_where (λ b. b.id == id) (cash_bet (sys.floats.decimal amount)) s.bets)
        × (t.slips ≡ s.slips)
  process_cashout-pays balance a updates runs fresh answers =
      let (r, calls, rows, bets, slips) = cash_out-pays balance updates runs fresh answers in
      rw
        (process_cashout-Accepted_eq (successful balance) (cash_out sys id amount bet s).1 a
          (λ i. (r i, (cash_out sys id amount bet s).1)))
        (refl, calls, rows, bets, slips)
