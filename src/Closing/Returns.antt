-- ===== src/Closing/Returns.antt =====
-- `closeBet` of src/cronjobs/workers/bet.resulting.service.ts returns, whatever fails, and leaves
-- `bet_closure` alone.
use betting_service.Prelude.{
  Bool-cases, inl, inr, ℕ, ◌==◌, List, [], ◌∷◌, Option, none, some, arith, ◌≡◌,
}
use betting_service.Entity.Bet.{Bet}
use betting_service.Entity.Records.{Winning}
use betting_service.Store.{System}
use betting_service.Closing.{
  close_won_bet, close_selected, after_select, after_update, after_save, pay_winning, credit_win,
  Store, save_winning,
}
use betting_service.Store.Keeps.{Leaves, Leaves-at, keeping}
use betting_service.Store.Total.{Total, Total-return, Total-attempt, Total-bind, Total-try}

module _ {N : Type 0} where
  module _ (sys : System N) where
    after_save-Total :
        (id : ℕ) (row : Bet N) (w : Option (Winning N)) → Total (after_save sys id row w)
    unfolding after_save
    after_save-Total id row none = Total-return none
    after_save-Total id row (some w) = elim (Bool-cases (w.id == 0)) [
      | inl e ↦ rw (e, after_save) (Total-return {A = Option ℕ} (some 0))
      | inr e ↦
          rw (e, after_save)
            (Total-bind _ _ (Total-try _ _ (Total-return tt)) (λ _. Total-return (some w.id)))
    ]

    after_update-Total :
        (id : ℕ) (row : Bet N) (o : Option (Unit {0})) → Total (after_update sys id row o)
    unfolding after_update pay_winning
    after_update-Total id row none = Total-return none
    after_update-Total id row (some u) = Total-bind _ _ (Total-attempt _) (after_save-Total id row)

    after_select-Total :
        (id : ℕ) (write : Bet N → Bet N) (o : Option (List (Bet N)))
        → Total (after_select sys id write o)
    unfolding after_select
    after_select-Total id write none = Total-return none
    after_select-Total id write (some []) = Total-return (some 0)
    after_select-Total id write (some (row ∷ rows)) =
        Total-bind _ _ (Total-attempt _) (after_update-Total id row)

    pub close_won_bet-Total : (id : ℕ) → Total (close_won_bet sys id)
    unfolding close_won_bet close_selected
    close_won_bet-Total id = Total-bind _ _ (Total-attempt _) (after_select-Total id _)

    credit_win-closures : (id : ℕ) (row : Bet N) → Leaves (λ t. t.closures) (credit_win sys id row)
    unfolding credit_win
    credit_win-closures id row c = search keeping

    after_save-closures :
        (id : ℕ) (row : Bet N) (w : Option (Winning N))
        → Leaves (λ t. t.closures) (after_save sys id row w)
    unfolding after_save
    after_save-closures id row none c = search keeping
    after_save-closures id row (some w) c = search (keeping, credit_win-closures)

    save_winning-closures : (w : Winning N) → Leaves (λ t. t.closures) (save_winning w)
    unfolding save_winning
    save_winning-closures w c = record { at = λ s h. ground arith }

    after_update-closures :
        (id : ℕ) (row : Bet N) (o : Option (Unit {0}))
        → Leaves (λ t. t.closures) (after_update sys id row o)
    unfolding after_update pay_winning
    after_update-closures id row none c = search keeping
    after_update-closures id row (some u) c =
        search (keeping, save_winning-closures, after_save-closures)

    after_select-closures :
        (id : ℕ) (write : Bet N → Bet N) (o : Option (List (Bet N)))
        → Leaves (λ t. t.closures) (after_select sys id write o)
    unfolding after_select
    after_select-closures id write none c = search keeping
    after_select-closures id write (some []) c = search keeping
    after_select-closures id write (some (row ∷ rows)) c = search (keeping, after_update-closures)

    close_won_bet-Leaves : (id : ℕ) → Leaves (λ t. t.closures) (close_won_bet sys id)
    unfolding close_won_bet close_selected
    close_won_bet-Leaves id c = search (keeping, after_select-closures)

    -- `closeBet` leaves the closures alone.
    pub close_won_bet-closures :
        (id : ℕ) (s : Store N) → (close_won_bet sys id s).1.closures ≡ s.closures
    close_won_bet-closures id s =
        Leaves-at (λ t. t.closures) (close_won_bet sys id) (close_won_bet-Leaves id) s
