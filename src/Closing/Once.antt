-- ===== src/Closing/Once.antt =====
-- A bet is closed at most once: `closeBet` of the two workers.
use betting_service.Prelude.{
  ◌||◌, ℕ, ◌≡◌, ◌≢◌, false, Bool, false, List, [], ◌∷◌, Option, none, some, arith, ◌==◌, List-cases,
  inl, inr,
}
use betting_service.Table.{select_where, update_where}
use betting_service.Table.Rows.{select-update_none}
use betting_service.Entity.Bet.{Bet}
use betting_service.Store.{Store, System, selects_bet, updates_bet}
use betting_service.Store.Keeps.{Leaves, Leaves-at, keeping}
use betting_service.Store.Action.{steps, refuse}
use betting_service.Entity.Records.{Winning}
use betting_service.Closing.{
  close_selected, close_won_bet, close_bet, after_select, after_update, after_save, pay_winning,
  credit_win, save_winning, is_payable, is_payable_won, Worker, resulting, settlement, takes, marks,
  close, close_won_bet, close_bet, ◌=ℤ◌, bet_pending, bet_voided,
}

module _ {N : Type 0} where
  credit_win-bets :
      (sys : System N) (id : ℕ) (row : Bet N) → Leaves (λ t. t.bets) (credit_win sys id row)
  unfolding credit_win
  credit_win-bets sys id row c = search keeping

  after_save-bets :
      (sys : System N) (id : ℕ) (row : Bet N) (w : Option (Winning N))
      → Leaves (λ t. t.bets) (after_save sys id row w)
  unfolding after_save
  after_save-bets sys id row none c = search keeping
  after_save-bets sys id row (some w) c = search (keeping, credit_win-bets)

  pub save_winning-bets : (w : Winning N) → Leaves (λ t. t.bets) (save_winning w)
  unfolding save_winning
  save_winning-bets w c = record { at = λ s h. ground arith }

  -- Once the bet is updated, paying it out touches no bet.
  pub pay_winning-bets :
      (sys : System N) (id : ℕ) (row : Bet N) → Leaves (λ t. t.bets) (pay_winning sys id row)
  unfolding pay_winning
  pay_winning-bets sys id row c = search (keeping, save_winning-bets, after_save-bets)

  module _ (id : ℕ) (eligible : Store N → Bet N → Bool) (write : Bet N → Bet N) where
    -- With no row to take, nothing is written.
    close_selected-skip :
        (sys : System N) (s : Store N)
        → select_where (eligible s) s.bets ≡ []
        → (close_selected sys id eligible write s).1 ≡ s
    unfolding close_selected after_select steps
    close_selected-skip sys s e = ground arith

    close_selected-bets :
        (sys : System N) (s : Store N) (row : Bet N) (rest : List (Bet N))
        → sys.fails selects_bet ≡ false
        → sys.fails updates_bet ≡ false
        → select_where (eligible s) s.bets ≡ row ∷ rest
        → (close_selected sys id eligible write s).1.bets
          ≡ update_where (λ b. b.id == id) write s.bets
    unfolding close_selected after_select after_update steps
    close_selected-bets sys s row rest f g e =
        rw (f, refuse, e, after_select, g)
          (Leaves-at (λ t. t.bets) (pay_winning sys id row) (pay_winning-bets sys id row) _)

  -- A row that either worker has written is taken by none.
  takes-marks :
      (v w : Worker) (sys : System N) (id : ℕ) (t : Store N) (b : Bet N)
      → takes w id t (marks v sys b) ≡ false
  unfolding is_payable is_payable_won
  takes-marks resulting resulting sys id t b = ground arith
  takes-marks resulting settlement sys id t b = ground arith
  takes-marks settlement resulting sys id t b = ground arith
  takes-marks settlement settlement sys id t b = ground arith

  -- A bet whose status is neither pending nor void is taken by no worker.
  pub takes-closed :
      (w : Worker) (id : ℕ) (t : Store N) (b : Bet N)
      → ((b.status =ℤ bet_pending) || (b.status =ℤ bet_voided)) ≡ false
      → takes w id t b ≡ false
  unfolding is_payable is_payable_won
  takes-closed resulting id t b h = ground arith
  takes-closed settlement id t b h = ground arith

  pub takes_other :
      (w : Worker) (id : ℕ) (t : Store N) (b : Bet N)
      → (b.id == id) ≡ false
      → takes w id t b ≡ false
  unfolding is_payable is_payable_won
  takes_other resulting id t b h = ground arith
  takes_other settlement id t b h = ground arith

  pub close-bets :
      (v : Worker) (sys : System N) (id : ℕ) (s : Store N) (row : Bet N) (rest : List (Bet N))
      → sys.fails selects_bet ≡ false
      → sys.fails updates_bet ≡ false
      → select_where (takes v id s) s.bets ≡ row ∷ rest
      → (close v sys id s).1.bets ≡ update_where (λ b. b.id == id) (marks v sys) s.bets
  unfolding close_won_bet close_bet
  close-bets resulting sys id = close_selected-bets id _ _ sys
  close-bets settlement sys id = close_selected-bets id _ _ sys

  pub close-skip :
      (w : Worker) (sys : System N) (id : ℕ) (s : Store N)
      → select_where (takes w id s) s.bets ≡ []
      → (close w sys id s).1 ≡ s
  unfolding close_won_bet close_bet
  close-skip resulting sys id = close_selected-skip id _ _ sys
  close-skip settlement sys id = close_selected-skip id _ _ sys

  -- A bet that a worker takes, when its SELECT and its UPDATE run, is taken out of reach of both: a
  -- later `closeBet` of that bet, of either worker, changes nothing, so it credits nothing.
  pub close-close :
      (v w : Worker) (sys sys' : System N) (id : ℕ) (s : Store N)
      → sys.fails selects_bet ≡ false
      → sys.fails updates_bet ≡ false
      → select_where (takes v id s) s.bets ≢ []
      → (close w sys' id (close v sys id s).1).1 ≡ (close v sys id s).1
  close-close v w sys sys' id s f g some_taken =
      elim (List-cases (select_where (takes v id s) s.bets)) [
        | inl e ↦ absurd (some_taken e)
        | inr (row, rest, e) ↦
            let t = (close v sys id s).1 in
            close-skip w sys' id t (
              rw (close-bets v sys id s row rest f g e) (
                select-update_none (λ b. b.id == id) (takes w id t) (marks v sys)
                  (λ b _. takes-marks v w sys id t b) (takes_other w id t) s.bets))
      ]
