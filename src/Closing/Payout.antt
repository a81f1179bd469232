-- ===== src/Closing/Payout.antt =====
-- What `closeBet` writes and whom it credits.
use betting_service.Prelude.{
  ℕ, ◌≡◌, ◌≢◌, refl, Bool, false, true, List, ◌∷◌, some, arith, ◌==◌, Bool-cases, inl, inr,
  if◌then◌else◌,
}
use betting_service.Table.Rows.{select-head}
use betting_service.Table.{select_where, update_where, exists_where}
use betting_service.Entity.Bet.{Bet, is_bonus}
use betting_service.Entity.Records.{Winning}
use betting_service.Int.{bet_won}
use betting_service.Store.{
  Store, System, Event, credit, settle_bonus, BonusReply, ok, sport, sport_bonus, selects_bet,
  updates_bet, inserts_winning,
}
use betting_service.Store.Action.{steps, refuse}
use betting_service.Closing.Once.{close-bets, close-close}
use betting_service.Closing.{
  close_selected, after_select, after_update, after_save, pay_winning, credit_win, save_winning,
  winning_of, win_payload, bonus_amount, Worker, takes, marks, close, close_won_bet, close_bet,
  resulting, settlement, is_payable, is_payable_won,
}

module _ {N : Type 0} where
  -- The calls that paying out a bet makes, before those made earlier: a normal bet has its winning
  -- credited to the sports wallet; for a bonus bet the bonus service is told, and what it answers is
  -- credited to the bonus wallet.
  abbrev pub paid : System N → ℕ → Bet N → BonusReply N → List (Event N) → List (Event N)
  paid sys id row reply sent =
      if is_bonus row.bonus_id
      then credit (win_payload row sport_bonus (bonus_amount sys row reply))
        ∷ settle_bonus (record {
          client_id = row.client_id;
          bet_id = id;
          amount = row.winning_after_tax;
          status = bet_won;
        })
        ∷ sent
      else credit (win_payload row sport row.winning_after_tax) ∷ sent

  -- If the bet is a bonus bet, the bonus service answers with `reply`.
  abbrev pub Answers : System N → ℕ → Bet N → List (Event N) → BonusReply N → Type 0
  Answers sys id row sent reply =
      is_bonus row.bonus_id ≡ true
      → sys.on_settle sent (record {
        client_id = row.client_id;
        bet_id = id;
        amount = row.winning_after_tax;
        status = bet_won;
      })
        ≡ ok reply

  module _ (sys : System N) (id : ℕ) (row : Bet N) (s : Store N) (reply : BonusReply N) where
    -- Nothing that follows the save depends on whether the wallet answers.
    after_save-sent :
        (w : Winning N)
        → w.id ≢ 0
        → Answers sys id row s.sent reply
        → ((after_save sys id row (some w) s).1.sent ≡ paid sys id row reply s.sent)
          × ((after_save sys id row (some w) s).1.winnings ≡ s.winnings)
          × ((after_save sys id row (some w) s).0 ≡ ok (some w.id))
    unfolding after_save credit_win steps
    after_save-sent w n e = elim (Bool-cases (is_bonus row.bonus_id)) [
      | inl bonus ↦ ground (arith, e bonus)
      | inr plain ↦ ground arith
    ]

  -- A row that a worker takes has the asked identifier, and no winning.
  taken :
      (v : Worker) (id : ℕ) (s : Store N) (row : Bet N)
      → takes v id s row ≡ true
      → (row.id ≡ id) × (exists_where (λ w. w.bet_id == row.id) s.winnings ≡ false)
  unfolding is_payable is_payable_won
  taken resulting id s row h = ground arith
  taken settlement id s row h = ground arith

  module _ (sys : System N) (id : ℕ) (s : Store N) (row : Bet N) (rest : List (Bet N))
      (reply : BonusReply N) (answered : Answers sys id row s.sent reply)
      (numbered : s.next_winning ≢ 0) (runs_select : sys.fails selects_bet ≡ false)
      (runs_update : sys.fails updates_bet ≡ false)
      (runs_insert : sys.fails inserts_winning ≡ false) where
    close_selected-pays :
        (eligible : Store N → Bet N → Bool) (write : Bet N → Bet N)
        → exists_where (λ w. w.bet_id == id) s.winnings ≡ false
        → select_where (eligible s) s.bets ≡ row ∷ rest
        → let (r, t) = close_selected sys id eligible write s in
          (t.sent ≡ paid sys id row reply s.sent)
          × (t.winnings ≡ record (winning_of id row) { id = s.next_winning } ∷ s.winnings)
          × (r ≡ ok (some s.next_winning))
    unfolding close_selected after_select after_update pay_winning save_winning steps
    close_selected-pays eligible write fresh e =
        rw
          (
            runs_select, refuse, e, after_select, runs_update, after_update, runs_insert, fresh,
            save_winning,
          )
          (after_save-sent sys id row _ reply _ numbered answered)

    close-pays_fresh :
        (v : Worker)
        → exists_where (λ w. w.bet_id == id) s.winnings ≡ false
        → select_where (takes v id s) s.bets ≡ row ∷ rest
        → let (r, t) = close v sys id s in
          (t.sent ≡ paid sys id row reply s.sent)
          × (t.winnings ≡ record (winning_of id row) { id = s.next_winning } ∷ s.winnings)
          × (r ≡ ok (some s.next_winning))
    unfolding close_won_bet close_bet
    close-pays_fresh resulting = close_selected-pays _ _
    close-pays_fresh settlement = close_selected-pays _ _

    -- A bet that a worker takes is paid out in full, when the statements run and the bonus service
    -- answers for a bonus bet: `closeBet` makes exactly the calls of `paid`, adds one row to the winnings, with the
    -- amounts of the bet, writes the marks of the worker into the bet and nothing into another, and
    -- returns the row's identifier; whether the wallet answers has no part in it.
    pub close-pays :
        (v : Worker)
        → select_where (takes v id s) s.bets ≡ row ∷ rest
        → let (r, t) = close v sys id s in
          (t.sent ≡ paid sys id row reply s.sent)
          × (t.winnings ≡ record (winning_of id row) { id = s.next_winning } ∷ s.winnings)
          × (t.bets ≡ update_where (λ b. b.id == id) (marks v sys) s.bets)
          × (r ≡ ok (some s.next_winning))
    close-pays v e =
        let (same, fresh) = taken v id s row (select-head (takes v id s) s.bets row rest e) in
        let (calls, rows, result) = close-pays_fresh v (rw same at fresh) e in
        (calls, rows, close-bets v sys id s row rest runs_select runs_update e, result)

  module _ (sys : System N) (id : ℕ) (s : Store N) (row : Bet N) (rest : List (Bet N))
      (runs_select : sys.fails selects_bet ≡ false) (runs_update : sys.fails updates_bet ≡ false)
      (refused : sys.fails inserts_winning ≡ true) where
    close_selected-stranded :
        (eligible : Store N → Bet N → Bool) (write : Bet N → Bet N)
        → select_where (eligible s) s.bets ≡ row ∷ rest
        → let t = (close_selected sys id eligible write s).1 in
          (t.sent ≡ s.sent) × (t.winnings ≡ s.winnings)
    unfolding close_selected after_select after_update pay_winning after_save steps
    close_selected-stranded eligible write e =
        rw (runs_select, refuse, e, after_select, runs_update, after_update, refused, after_save)
          (refl, refl)

    close-stranded :
        (v : Worker)
        → select_where (takes v id s) s.bets ≡ row ∷ rest
        → let t = (close v sys id s).1 in (t.sent ≡ s.sent) × (t.winnings ≡ s.winnings)
    unfolding close_won_bet close_bet
    close-stranded resulting = close_selected-stranded _ _
    close-stranded settlement = close_selected-stranded _ _

    -- If a worker takes a bet and the INSERT of the winning is refused, the bet is left with the
    -- status of a paid bet, with no winning and no call to a service, and no later `closeBet` of that
    -- bet, of either worker, whatever then answers, changes anything.
    pub close_strands :
        (v : Worker)
        → select_where (takes v id s) s.bets ≡ row ∷ rest
        → let t = (close v sys id s).1 in
          (t.sent ≡ s.sent)
          × (t.winnings ≡ s.winnings)
          × (t.bets ≡ update_where (λ b. b.id == id) (marks v sys) s.bets)
          × ((w : Worker) (sys' : System N) → (close w sys' id t).1 ≡ t)
    close_strands v e = (
      (close-stranded v e).0,
      (close-stranded v e).1,
      close-bets v sys id s row rest runs_select runs_update e,
      λ w sys'.
          close-close v w sys sys' id s runs_select runs_update (λ none_taken. cc (e, none_taken)),
    )
