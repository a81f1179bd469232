-- ===== src/Casino/Rounds.antt =====
-- What settling and cancelling do to the rows of a transaction
-- (src/bets/casino-bet.service.ts).
use betting_service.Prelude.{
  ℕ, ◌==◌, ◌≡◌, refl, ◌∙◌, ap, Bool, true, false, not, ◌&&◌, str_eq, List, [], ◌∷◌, some,
  Bool-cases, inl, inr,
}
use betting_service.Table.{select_where, update_where, find_where, All}
use betting_service.Table.Rows.{find-update, select-find}
use betting_service.Entity.Bet.{is_bonus}
use betting_service.Entity.Games.{CasinoBet}
use betting_service.Store.{Store, System, ok, selects_casino_bet, updates_casino_bet}
use betting_service.Store.Action.{steps, continue, recover, refuse, for_each, when}
use betting_service.Store.Loop.{for_each-first}
use betting_service.Casino.{
  SettleCasinoBetRequest, cancelled, already_processed, already_closed, settled, cancel_casino_bet,
  cancel_found, settle_casino_bet, settle_found, settle_single, result_of, write_winnings,
  update_bets, has_transaction, set_status,
}

-- Of two UPDATEs with one condition, which neither changes, the second is what is left, if it
-- writes all that the first writes.
update-update {ℓ} :
    {A : Type ℓ} (p : A → Bool) (f g : A → A)
    → ((x : A) → p (g x) ≡ p x)
    → ((x : A) → f (g x) ≡ f x)
    → (xs : List A) → update_where p f (update_where p g xs) ≡ update_where p f xs
unfolding update_where
update-update p f g same over [] = refl
update-update p f g same over (x ∷ xs) = elim (Bool-cases (p x)) [
  | inl e ↦ rw (e, same x, e, over x, update-update p f g same over xs) refl
  | inr e ↦ rw (e, e, update-update p f g same over xs) refl
]

abbrev pub last_of {ℓ} : {A : Type ℓ} → A → List A → A
last_of x [] = x
last_of x (y ∷ ys) = last_of y ys

module _ {N : Type 0} (sys : System N) (runs_update : sys.fails updates_casino_bet ≡ false) where
  -- No row is a bonus bet.
  abbrev pub NoBonus : List (CasinoBet N) → Type 0
  NoBonus = All (λ b. is_bonus b.bonus_id ≡ false)

  settle_single-writes :
      (req : SettleCasinoBetRequest N) (status : ℕ) (b : CasinoBet N) (s : Store N)
      → is_bonus b.bonus_id ≡ false
      → settle_single sys req status b s ≡ (
        ok tt,
        record s {
          casino_bets =
              update_where
                (has_transaction req.transaction_id)
                (write_winnings sys req.winnings status b)
                s.casino_bets;
        },
      )
  unfolding settle_single update_bets steps
  settle_single-writes req status b s h = rw (runs_update, refuse, continue, h, when) refl

  loop-writes :
      (req : SettleCasinoBetRequest N) (status : ℕ) (b : CasinoBet N) (bs : List (CasinoBet N))
      (s : Store N)
      → NoBonus (b ∷ bs)
      → for_each (b ∷ bs) (settle_single sys req status) s ≡ (
        ok tt,
        record s {
          casino_bets =
              update_where
                (has_transaction req.transaction_id)
                (write_winnings sys req.winnings status (last_of b bs))
                s.casino_bets;
        },
      )
  unfolding steps
  loop-writes req status b [] s (h, hs) = rw (settle_single-writes req status b s h, continue) refl
  loop-writes req status b (c ∷ bs) s (h, hs) =
      let write = λ (x : CasinoBet N). write_winnings sys req.winnings status x in
      let here = has_transaction req.transaction_id in
      let t = record s { casino_bets = update_where here (write b) s.casino_bets } in
      for_each-first (settle_single sys req status) b (c ∷ bs) s t
        (settle_single-writes req status b s h)
      ∙ loop-writes req status c bs t hs
      ∙ ap (λ (xs : List (CasinoBet N)). (ok tt, record s { casino_bets = xs }))
          (update-update here (write (last_of c bs)) (write b) (λ x. refl) (λ x. refl)
            s.casino_bets)

  -- Settling a transaction of bets that are no bonus bets, if the statements run: every row of the
  -- transaction gets one status, by the winnings, and as its winnings those of the request added to
  -- those that the last of its rows had; the other rows stay, and no service is called.
  pub settle_casino_bet-writes :
      (req : SettleCasinoBetRequest N) (b : CasinoBet N) (bs : List (CasinoBet N)) (s : Store N)
      → sys.fails selects_casino_bet ≡ false
      → select_where (has_transaction req.transaction_id) s.casino_bets ≡ b ∷ bs
      → NoBonus (b ∷ bs)
      → str_eq req.provider "smart-soft" && not (b.status == 0) ≡ false
      → settle_casino_bet sys req s ≡ (
        ok (settled b.id),
        record s {
          casino_bets =
              update_where
                (has_transaction req.transaction_id)
                (write_winnings sys req.winnings (result_of sys req.winnings) (last_of b bs))
                s.casino_bets;
        },
      )
  unfolding settle_casino_bet settle_found steps
  settle_casino_bet-writes req b bs s runs found plain is_open =
      rw
        (
          runs,
          refuse,
          found,
          continue,
          settle_found,
          is_open,
          loop-writes req (result_of sys req.winnings) b bs s plain,
          recover,
        )
        refl

  -- A cancelled transaction is final for cancellations, and for settlements by 'smart-soft': the first
  -- cancellation of it, if the statements run, marks all its rows; a second is answered that it was
  -- processed, and a settlement that the bet is closed, and neither changes anything.
  pub cancel_casino_bet-final :
      (req : SettleCasinoBetRequest N) (b : CasinoBet N) (s : Store N)
      → sys.fails selects_casino_bet ≡ false
      → find_where (has_transaction req.transaction_id) s.casino_bets ≡ some b
      → (b.status == 3) ≡ false
      → str_eq req.provider "smart-soft" ≡ true
      → let id = req.transaction_id in
        let t = record s {
          casino_bets = update_where (has_transaction id) (set_status 3) s.casino_bets;
        } in
        (cancel_casino_bet sys id s ≡ (ok cancelled, t))
        × (cancel_casino_bet sys id t ≡ (ok already_processed, t))
        × (settle_casino_bet sys req t ≡ (ok (already_closed b.id), t))
  unfolding cancel_casino_bet cancel_found settle_casino_bet settle_found update_bets steps
  cancel_casino_bet-final req b s runs found fresh smart =
      let here = has_transaction req.transaction_id in
      let again = find-update here (set_status 3) (λ x h. h) s.casino_bets b found in
      let (others, selected) =
        select-find here (update_where here (set_status 3) s.casino_bets) (set_status 3 b) again in
      (
        rw (runs, refuse, found, continue, cancel_found, fresh, runs_update, recover) refl,
        rw (runs, refuse, again, continue, cancel_found, recover) refl,
        rw (runs, refuse, selected, continue, settle_found, smart, recover) refl,
      )
