-- ===== src/Updating/Again.antt =====
-- Repeated updates of a bet by `updateBet` of src/bets/bets.service.ts: a second payment is refused, and
-- a second refund is made.
use betting_service.Prelude.{
  ℕ, zero, suc, ◌==◌, ◌≡◌, refl, ◌∙◌, Bool, true, false, List, [], ◌∷◌, some, arith, str_eq,
  Bool-cases, inl, inr, length, ap, subst,
}
use betting_service.Int.{ℤ, bet_won, bet_voided}
use betting_service.Table.{find_where, exists_where, All}
use betting_service.Table.Rows.{find-update}
use betting_service.Entity.Bet.{Bet, is_bonus}
use betting_service.Store.{
  Store, System, Event, credit, debit, settle_bonus, place_bonus, submit, ok, thrown, Result,
  check_bonus, Payload,
}
use betting_service.Store.{bet_cancelled as cancelled_subject}
use betting_service.Store.Action.{steps, continue, recover, when, Action, ◌>>=◌}
use betting_service.Store.Keeps.{continue-return}
use betting_service.Closing.{save_winning, winning_of}
use betting_service.Mts.{stake_payload}
use betting_service.Updating.{
  Decision, won, void, cancel, UpdateBetRequest, update_bet, update_entity, update_whole_bet,
  decide, decision_of, purse_of, pay_manually, settle_bonus_bet, not_updated, mark_manually,
}
use betting_service.Updating.Results.{
  AllAnswer, bonus_call, calls_of, has_winning, update_bet-writes,
}

-- The credits among the calls, and those that return the stake of a cancelled bet.
pub credits : {N : Type 0} → List (Event N) → ℕ
credits [] = 0
credits (credit p ∷ es) = suc (credits es)
credits (debit p ∷ es) = credits es
credits (settle_bonus q ∷ es) = credits es
credits (place_bonus q ∷ es) = credits es
credits (submit q ∷ es) = credits es
credits (check_bonus c u stake ∷ es) = credits es

-- The payments to the wallet among the calls, the latest first.
unfoldable pub payments : {N : Type 0} → List (Event N) → List (Payload N)
payments [] = []
payments (credit p ∷ es) = p ∷ payments es
payments (debit p ∷ es) = payments es
payments (settle_bonus q ∷ es) = payments es
payments (place_bonus q ∷ es) = payments es
payments (submit q ∷ es) = payments es
payments (check_bonus c u stake ∷ es) = payments es

-- An item, some times, before a list.
abbrev pub repeated : {A : Type 0} → ℕ → A → List A → List A
repeated zero x xs = xs
repeated (suc n) x xs = x ∷ repeated n x xs

repeated-first :
    {A : Type 0} (n : ℕ) (x : A) (xs : List A) → repeated n x (x ∷ xs) ≡ x ∷ repeated n x xs
repeated-first zero x xs = refl
repeated-first (suc n) x xs = ap (λ l. x ∷ l) (repeated-first n x xs)

abbrev pub returns_stake : Decision → Bool
returns_stake void = true
returns_stake cancel = true
returns_stake d = false

abbrev pub Returning : ℕ → UpdateBetRequest → Type 0
Returning id req =
    (req.bet_id ≡ id)
    × (str_eq req.entity_type "bet" ≡ true)
    × (returns_stake (decision_of req.status) ≡ true)

module _ {N : Type 0} where
  settle_bonus_bet-store :
      (sys : System N) (bet : Bet N) (amount : N) (status : ℤ) (s : Store N)
      → (settle_bonus_bet sys bet amount status s).1
        ≡ record s { sent = bonus_call sys bet amount status s.sent }
  unfolding settle_bonus_bet steps
  settle_bonus_bet-store sys bet amount status s = elim (Bool-cases (is_bonus bet.bonus_id)) [
    | inl e ↦ rw (e, when) (continue-return _ tt _)
    | inr e ↦ rw (e, when) refl
  ]

  bonus_call-credits :
      (sys : System N) (bet : Bet N) (amount : N) (status : ℤ) (es : List (Event N))
      → credits (bonus_call sys bet amount status es) ≡ credits es
  unfolding credits
  bonus_call-credits sys bet amount status es = ground arith

  continue-throws :
      {A B : Type 0} (r : Result A) (k : A → Action N B) (t : Store N)
      → ((a : A) → k a t ≡ (thrown, t))
      → continue r k t ≡ (thrown, t)
  continue-throws (ok a) k t h = h a
  continue-throws thrown k t h = refl

  bind-throws :
      {A B : Type 0} (m : Action N A) (k : A → Action N B) (s t : Store N)
      → (m s).1 ≡ t
      → ((a : A) → k a t ≡ (thrown, t))
      → (m >>= k) s ≡ (thrown, t)
  unfolding ◌>>=◌
  bind-throws m k s t e h =
      subst (λ u. ((a : _) → k a u ≡ (thrown, u)) → (m >>= k) s ≡ (thrown, u)) e
        (continue-throws (m s).0 k (m s).1) h

  thrown-bind :
      {A B : Type 0} (m : Action N A) (k : A → Action N B) (s t : Store N)
      → m s ≡ (thrown, t)
      → (m >>= k) s ≡ (thrown, t)
  unfolding ◌>>=◌
  thrown-bind m k s t e = rw (e, continue) refl

  save_winning-refused :
      (sys : System N) (bet : Bet N) (t : Store N)
      → exists_where (λ w. w.bet_id == bet.id) t.winnings ≡ true
      → save_winning (winning_of bet.id bet) t ≡ (thrown, t)
  unfolding save_winning
  save_winning-refused sys bet t h = rw h refl

  pay_manually-refused :
      (sys : System N) (bet : Bet N) (s : Store N)
      → exists_where (λ w. w.bet_id == bet.id) s.winnings ≡ true
      → pay_manually sys bet s
        ≡ (thrown, record s { sent = bonus_call sys bet bet.winning_after_tax bet_won s.sent })
  unfolding pay_manually
  pay_manually-refused sys bet s h =
      let t = record s { sent = bonus_call sys bet bet.winning_after_tax bet_won s.sent } in
      bind-throws _ _ s t (settle_bonus_bet-store sys bet bet.winning_after_tax bet_won s)
        (λ u. thrown-bind _ _ t t (save_winning-refused sys bet t h))

  -- An update that says of a bet with a winning that it is won is refused: it changes no bet, slip or
  -- winning and credits nobody, whatever the services answer.
  pub update_bet-paid_once :
      (sys : System N) (req : UpdateBetRequest) (bet : Bet N) (s : Store N)
      → str_eq req.entity_type "bet" ≡ true
      → decision_of req.status ≡ won
      → find_where (λ b. b.id == req.bet_id) s.bets ≡ some bet
      → exists_where (λ w. w.bet_id == bet.id) s.winnings ≡ true
      → let (r, t) = update_bet sys req s in
        (r ≡ ok not_updated)
        × (t.bets ≡ s.bets)
        × (t.slips ≡ s.slips)
        × (t.winnings ≡ s.winnings)
        × (credits t.sent ≡ credits s.sent)
  unfolding update_bet update_entity update_whole_bet decide steps
  update_bet-paid_once sys req bet s is_bet is_won found paid =
      rw (found, is_bet, is_won, decide, pay_manually-refused sys bet s paid, continue, recover)
        (refl, refl, refl, refl, bonus_call-credits sys bet bet.winning_after_tax bet_won s.sent)

  pub update_all : System N → List UpdateBetRequest → Store N → Store N
  update_all sys [] s = s
  update_all sys (req ∷ reqs) s = update_all sys reqs (update_bet sys req s).1

  -- The stake of a bet, credited to its user.
  abbrev pub stake_of : Bet N → Payload N
  stake_of bet = stake_payload cancelled_subject bet (purse_of bet.bonus_id)

  bonus_call-payments :
      (sys : System N) (bet : Bet N) (amount : N) (status : ℤ) (es : List (Event N))
      → payments (bonus_call sys bet amount status es) ≡ payments es
  unfolding payments
  bonus_call-payments sys bet amount status es = elim (Bool-cases (is_bonus bet.bonus_id)) [
    | inl e ↦ rw e refl
    | inr e ↦ rw e refl
  ]

  calls_of-payments :
      (sys : System N) (d : Decision) (bet : Bet N) (es : List (Event N))
      → returns_stake d ≡ true
      → payments (calls_of sys d bet es) ≡ stake_of bet ∷ payments es
  unfolding payments
  calls_of-payments sys void bet es h =
      ap (λ ps. stake_of bet ∷ ps) (bonus_call-payments sys bet sys.floats.zero_num bet_voided es)
  calls_of-payments sys cancel bet es h =
      ap (λ ps. stake_of bet ∷ ps) (bonus_call-payments sys bet sys.floats.zero_num bet_voided es)
  calls_of-payments sys d bet es h = absurd (cc h)

  returns_stake-fresh :
      (d : Decision) (id : ℕ) (s : Store N) → returns_stake d ≡ true → has_winning d id s ≡ false
  returns_stake-fresh won id s h = cc
  returns_stake-fresh d id s h = refl

  update_bet-returns :
      (sys : System N)
      → AllAnswer sys
      → (id : ℕ) (req : UpdateBetRequest) (bet : Bet N) (s : Store N) → Returning id req
      → find_where (λ b. b.id == id) s.bets ≡ some bet
      → let t = (update_bet sys req s).1 in
        (payments t.sent ≡ stake_of bet ∷ payments s.sent)
        × (find_where (λ b. b.id == id) t.bets
            ≡ some (mark_manually sys (decision_of req.status) bet))
  update_bet-returns sys answer id req bet s (same, is_bet, returning) found =
      let (r, calls, rows, slips, bets) =
        update_bet-writes sys answer req bet s is_bet (rw same found)
          (returns_stake-fresh (decision_of req.status) bet.id s returning) in
      (
        ap payments calls ∙ calls_of-payments sys (decision_of req.status) bet s.sent returning,
        rw (bets, same)
            (find-update (λ b. b.id == id) (mark_manually sys (decision_of req.status)) (λ b h. h)
              s.bets bet found),
      )

  -- Each of any number of updates that void or cancel one known bet credits the stake of the bet to its
  -- user once more, if the services answer and the UPDATE runs: these are all the payments that they make.
  pub update_all-returns :
      (sys : System N)
      → AllAnswer sys
      → (id : ℕ) (reqs : List UpdateBetRequest) (bet : Bet N) (s : Store N)
      → All (Returning id) reqs
      → find_where (λ b. b.id == id) s.bets ≡ some bet
      → payments (update_all sys reqs s).sent
        ≡ repeated (length reqs) (stake_of bet) (payments s.sent)
  unfolding update_all
  update_all-returns sys answer id [] bet s h found = refl
  update_all-returns sys answer id (req ∷ reqs) bet s h found =
      let (one, still) = update_bet-returns sys answer id req bet s h.0 found in
      update_all-returns sys answer id reqs (mark_manually sys (decision_of req.status) bet)
        (update_bet sys req s).1 h.1 still
      ∙ ap (repeated (length reqs) (stake_of bet)) one
      ∙ repeated-first (length reqs) (stake_of bet) (payments s.sent)
