-- ===== src/Cashout/Exclusive.antt =====
-- A bet is cashed out or paid out, and once: src/bets/cashout.service.ts against `closeBet` of
-- src/cronjobs/workers.
use betting_service.Prelude.{
  ℕ, ◌==◌, ◌≡◌, ◌≢◌, ◌⊎◌, refl, ◌∙◌, true, false, [], Option, none, some, arith, inl, inr,
  List-cases, ap, Bool-cases,
}
use betting_service.Int.{◌=ℤ◌, bet_pending}
use betting_service.Table.{find_where, select_where, update_where}
use betting_service.Table.Rows.{select-update_none, find-updated}
use betting_service.Entity.Bet.{Bet}
use betting_service.Entity.Records.{Winning}
use betting_service.Store.{Store, System, selects_bet, updates_bet, inserts_winning}
use betting_service.Store.Action.{modify, attempt, statement, ◌>>=◌, refuse, continue}
use betting_service.Store.Keeps.{Leaves, Leaves-at, keeping}
use betting_service.Closing.{Worker, resulting, settlement, takes, marks, close}
use betting_service.Closing.Once.{
  save_winning-bets, close-skip, takes_other, takes-closed, close-bets,
}
use betting_service.Cashout.{
  process_cashout, cash_out, cash_bet, after_winning, reply_with, cashout_winning, not,
  save_winning,
}
use betting_service.Cashout.Offer.{process_cashout-Accepted}

module _ {N : Type 0} where
  reply_with-bets : (b : Option N) → Leaves (λ t. t.bets) (reply_with b)
  unfolding reply_with
  reply_with-bets none c = search keeping
  reply_with-bets (some b) c = search keeping

  after_winning-bets :
      (sys : System N) (amount : N) (bet : Bet N) (w : Option (Winning N))
      → Leaves (λ t. t.bets) (after_winning sys amount bet w)
  unfolding after_winning
  after_winning-bets sys amount bet none c = search keeping
  after_winning-bets sys amount bet (some w) c = search (keeping, reply_with-bets)

  save_then-bets :
      (sys : System N) (id : ℕ) (stored amount : N) (bet : Bet N)
      → Leaves
          (λ t. t.bets)
          (attempt (statement sys inserts_winning (save_winning (cashout_winning id stored bet)))
            >>= after_winning sys amount bet)
  save_then-bets sys id stored amount bet c =
      search (keeping, save_winning-bets, after_winning-bets)

  pub cash_out-bets :
      (sys : System N) (id : ℕ) (amount : N) (bet : Bet N) (s : Store N)
      → sys.fails updates_bet ≡ false
      → (cash_out sys id amount bet s).1.bets
        ≡ update_where (λ b. b.id == id) (cash_bet (sys.floats.decimal amount)) s.bets
  unfolding cash_out modify ◌>>=◌ statement
  cash_out-bets sys id amount bet s runs =
      rw (runs, refuse, continue)
        (Leaves-at (λ t. t.bets) _ (save_then-bets sys id (sys.floats.decimal amount) amount bet) _)

  cash_out-refused :
      (sys : System N) (id : ℕ) (amount : N) (bet : Bet N) (s : Store N)
      → sys.fails updates_bet ≡ true
      → (cash_out sys id amount bet s).1 ≡ s
  unfolding cash_out ◌>>=◌ statement
  cash_out-refused sys id amount bet s fails = rw (fails, refuse, continue) refl

  takes_cashed :
      (w : Worker) (id : ℕ) (t : Store N) (amount : N) (b : Bet N)
      → takes w id t (cash_bet amount b) ≡ false
  takes_cashed w id t amount b = takes-closed w id t (cash_bet amount b) refl

  not_pending :
      (b : Bet N) → not (b.status =ℤ bet_pending) ≡ true → (b.status =ℤ bet_pending) ≡ false
  not_pending b h = ground arith

  -- A request finds a bet that is not pending: it changes nothing.
  process_cashout-skip :
      (sys : System N) (id : ℕ) (amount : N) (t : Store N)
      → ((b : Bet N)
          → find_where (λ x. x.id == id) t.bets ≡ some b
          → (b.status =ℤ bet_pending) ≡ false)
      → (process_cashout sys id amount t).1 ≡ t
  process_cashout-skip sys id amount t h = elim (process_cashout-Accepted sys id amount t) [
    | inl e ↦ e
    | inr (b, accepted, e) ↦ cc (h b accepted.found, accepted.is_pending)
  ]

  -- A request to cash a bet out either changes nothing, or is the last thing that happens to the bet:
  -- no later `closeBet` of it, of either worker, and no later request changes anything, whatever then
  -- answers.
  pub process_cashout-final :
      (sys sys' : System N) (w : Worker) (id : ℕ) (amount amount' : N) (s : Store N)
      → let t = (process_cashout sys id amount s).1 in
        (t ≡ s) ⊎ (((close w sys' id t).1 ≡ t) × ((process_cashout sys' id amount' t).1 ≡ t))
  process_cashout-final sys sys' w id amount amount' s =
      elim (process_cashout-Accepted sys id amount s) [
        | inl e ↦ inl e
        | inr (bet, accepted, e) ↦ elim (Bool-cases (sys.fails updates_bet)) [
          | inl fails ↦ inl (e ∙ cash_out-refused sys id amount bet s fails)
          | inr runs ↦
              let t = (process_cashout sys id amount s).1 in
              let mark = cash_bet (sys.floats.decimal amount) in
              let bets : t.bets ≡ update_where (λ b. b.id == id) mark s.bets =
                ap (λ (u : Store N). u.bets) e ∙ cash_out-bets sys id amount bet s runs in
              inr (
                close-skip w sys' id t (
                    rw bets (
                      select-update_none (λ b. b.id == id) (takes w id t) mark
                        (λ b _. takes_cashed w id t (sys.floats.decimal amount) b)
                        (takes_other w id t) s.bets)),
                process_cashout-skip sys' id amount' t (λ b found. not_pending b (
                    find-updated (λ x. x.id == id) (λ x. not (x.status =ℤ bet_pending)) mark
                      (λ x h. refl) s.bets b (rw bets at found))),
              )
        ]
      ]

  -- Once a worker has taken a bet, when its SELECT and its UPDATE run, no request to cash the bet out
  -- changes anything.
  pub close-process_cashout :
      (v : Worker) (sys sys' : System N) (id : ℕ) (amount : N) (s : Store N)
      → sys.fails selects_bet ≡ false
      → sys.fails updates_bet ≡ false
      → select_where (takes v id s) s.bets ≢ []
      → (process_cashout sys' id amount (close v sys id s).1).1 ≡ (close v sys id s).1
  close-process_cashout v sys sys' id amount s f g some_taken =
      elim (List-cases (select_where (takes v id s) s.bets)) [
        | inl e ↦ absurd (some_taken e)
        | inr (row, rest, e) ↦ process_cashout-skip sys' id amount _ (λ b found. not_pending b (
            find-updated (λ x. x.id == id) (λ x. not (x.status =ℤ bet_pending)) (marks v sys)
              (λ x h. marked v sys x) s.bets b
              (rw (close-bets v sys id s row rest f g e) at found)))
      ]
    where
      marked :
          (v : Worker) (sys : System N) (b : Bet N)
          → not ((marks v sys b).status =ℤ bet_pending) ≡ true
      marked resulting sys b = refl
      marked settlement sys b = refl
