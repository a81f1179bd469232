-- ===== src/Closing/Follows.antt =====
-- `closeBet` follows the ledger: it records a winning before it credits it
-- (src/cronjobs/workers/bet.resulting.service.ts and bet.settlement.service.ts).
use betting_service.Prelude.{
  ℕ, suc, ◌==◌, ◌≡◌, refl, sym, subst, ◌∙◌, Bool, true, false, List, [], ◌∷◌, Option, none, some,
  map, inl, inr, Bool-cases,
}
use betting_service.Table.{exists_where}
use betting_service.Entity.Bet.{Bet}
use betting_service.Entity.Records.{Winning}
use betting_service.Store.{Store, System, Statement}
use betting_service.Store.Action.{Action, ◌>>=◌, continue, attempt, statement, refuse, outcome}
use betting_service.Ledger.{Ledger, account, view, is_recorded, Steps, next, record_win, pay_win}
use betting_service.Ledger.Rules.{Follows, following, paying, PaysOnce, Pays}
use betting_service.Closing.{
  save_winning, credit_win, after_save, pay_winning, after_update, after_select, close_selected,
  close_won_bet, close_bet,
}

module _ {N : Type 0} where
  is_recorded-winnings :
      (id : ℕ) (ws : List (Winning N))
      → is_recorded id (map (λ w. w.bet_id) ws) ≡ exists_where (λ w. w.bet_id == id) ws
  unfolding exists_where
  is_recorded-winnings id [] = refl
  is_recorded-winnings id (w ∷ ws) = elim (Bool-cases (w.bet_id == id)) [
    | inl e ↦ rw e refl
    | inr e ↦ rw e (is_recorded-winnings id ws)
  ]

  -- A winning that is recorded, then paid or not.
  Steps-recorded :
      (l : Ledger N) (w : Winning N) (s t : Store N)
      → exists_where (λ x. x.bet_id == w.bet_id) s.winnings ≡ false
      → Steps l (view s)
      → Pays (record (view s) { recorded = w.bet_id ∷ (view s).recorded }) (view t)
      → Steps l (view t)
  Steps-recorded l w s t new h (inl e) =
      subst (Steps l) (sym e)
        (next h (record_win (view s) w.bet_id (is_recorded-winnings w.bet_id s.winnings ∙ new)))
  Steps-recorded l w s t new h (inr e) =
      subst (Steps l) (sym e)
        (next h (pay_win (view s) w.bet_id (is_recorded-winnings w.bet_id s.winnings ∙ new)))

  abbrev with_winning : Winning N → Store N → Store N
  with_winning w s = record s {
    winnings = record w { id = s.next_winning } ∷ s.winnings;
    next_winning = suc s.next_winning;
  }

  -- What is done after the winning is saved may credit it once.
  pub Follows-save :
      {B : Type 0} (l : Ledger N) (w : Winning N) (k : Winning N → Action N B)
      → ((x : Winning N) → PaysOnce (k x))
      → Follows l (save_winning w >>= k)
  unfolding save_winning ◌>>=◌
  Follows-save l w k hk = record {
    at = λ s h. elim (Bool-cases (exists_where (λ x. x.bet_id == w.bet_id) s.winnings)) [
      | inl e ↦ rw (e, continue) h
      | inr e ↦
          rw (e, continue)
            (Steps-recorded l w s (k (record w { id = s.next_winning }) (with_winning w s)).1 e h
              ((hk (record w { id = s.next_winning })).at (with_winning w s)))
    ];
  }

  refused_save :
      (l : Ledger N) (b : Bool) (w : Winning N) {B : Type 0} (k : Option (Winning N) → Action N B)
      → ((x : Winning N) → PaysOnce (k (some x)))
      → Follows l (k none)
      → Follows l (attempt (refuse b (save_winning w)) >>= k)
  unfolding save_winning ◌>>=◌ attempt
  refused_save l true w k hk none_follows = record { at = λ s h. none_follows.at s h }
  refused_save l false w k hk none_follows = record {
    at = λ s h. elim (Bool-cases (exists_where (λ x. x.bet_id == w.bet_id) s.winnings)) [
      | inl e ↦ rw (e, outcome) (none_follows.at s h)
      | inr e ↦
          rw (e, outcome)
            (Steps-recorded l w s (k (some (record w { id = s.next_winning })) (with_winning w s)).1
              e h ((hk (record w { id = s.next_winning })).at (with_winning w s)))
    ];
  }

  -- So too if the statement may be refused, and its failure is caught.
  pub Follows-save_try :
      (l : Ledger N) (sys : System N) (st : Statement) (w : Winning N) {B : Type 0}
      (k : Option (Winning N) → Action N B)
      → ((x : Winning N) → PaysOnce (k (some x)))
      → Follows l (k none)
      → Follows l (attempt (statement sys st (save_winning w)) >>= k)
  unfolding ◌>>=◌ attempt statement
  Follows-save_try l sys st w k hk none_follows = record {
    at = (refused_save l (sys.fails st) w k hk none_follows).at;
  }

  credit_win-PaysOnce : (sys : System N) (id : ℕ) (row : Bet N) → PaysOnce (credit_win sys id row)
  unfolding credit_win
  credit_win-PaysOnce sys id row = search paying

  after_save-PaysOnce :
      (sys : System N) (id : ℕ) (row : Bet N) (w : Winning N)
      → PaysOnce (after_save sys id row (some w))
  unfolding after_save
  after_save-PaysOnce sys id row w = search (paying, credit_win-PaysOnce)

  after_save-Follows :
      (l : Ledger N) (sys : System N) (id : ℕ) (row : Bet N)
      → Follows l (after_save sys id row none)
  unfolding after_save
  after_save-Follows l sys id row = search following

  pay_winning-Follows :
      (l : Ledger N) (sys : System N) (id : ℕ) (row : Bet N) → Follows l (pay_winning sys id row)
  unfolding pay_winning
  pay_winning-Follows l sys id row =
      Follows-save_try l sys _ _ (after_save sys id row) (after_save-PaysOnce sys id row)
        (after_save-Follows l sys id row)

  after_update-Follows :
      (l : Ledger N) (sys : System N) (id : ℕ) (row : Bet N) (written : Option (Unit {0}))
      → Follows l (after_update sys id row written)
  unfolding after_update
  after_update-Follows l sys id row none = search following
  after_update-Follows l sys id row (some u) = pay_winning-Follows l sys id row

  after_select-Follows :
      (l : Ledger N) (sys : System N) (id : ℕ) (write : Bet N → Bet N)
      → ((b : Bet N) → account (write b) ≡ account b)
      → (rows : Option (List (Bet N))) → Follows l (after_select sys id write rows)
  unfolding after_select
  after_select-Follows l sys id write same none = search following
  after_select-Follows l sys id write same (some []) = search following
  after_select-Follows l sys id write same (some (row ∷ rows)) =
      search (following, after_update-Follows, same)

  close_selected-Follows :
      (l : Ledger N) (sys : System N) (id : ℕ) (eligible : Store N → Bet N → Bool)
      (write : Bet N → Bet N)
      → ((b : Bet N) → account (write b) ≡ account b)
      → Follows l (close_selected sys id eligible write)
  unfolding close_selected
  close_selected-Follows l sys id eligible write same =
      search (following, after_select-Follows, same)

  pub close_won_bet-Follows :
      (l : Ledger N) (sys : System N) (id : ℕ) → Follows l (close_won_bet sys id)
  unfolding close_won_bet
  close_won_bet-Follows l sys id = close_selected-Follows l sys id _ _ (λ b. refl)

  pub close_bet-Follows : (l : Ledger N) (sys : System N) (id : ℕ) → Follows l (close_bet sys id)
  unfolding close_bet
  close_bet-Follows l sys id = close_selected-Follows l sys id _ _ (λ b. refl)
