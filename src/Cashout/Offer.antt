-- ===== src/Cashout/Offer.antt =====
-- When a cash-out request of src/bets/cashout.service.ts changes anything.
use betting_service.Prelude.{
  ℕ, ◌==◌, ◌≡◌, ◌⊎◌, refl, ◌∙◌, ap, true, List, [], ◌∷◌, Option, none, some, Bool-cases,
  Option-cases, inl, inr, ◌&&◌, Bool, false, sym, subst, arith, if◌then◌else◌,
}
use betting_service.Int.{◌=ℤ◌, bet_pending, status_lost}
use betting_service.Floats.{Floats}
use betting_service.Table.{find_where, select_where, exists_where, count_where}
use betting_service.Table.Rows.{count-none}
use betting_service.Entity.Bet.{Bet}
use betting_service.Entity.Slip.{BetSlip}
use betting_service.Store.{Store, System, ok, thrown, Result}
use betting_service.Store.Action.{
  steps, continue, recover, Action, return, try_catch, ◌>>=◌, get, throw,
}
use betting_service.Cashout.{
  process_cashout, process_bet, at_products, at_offer, cash_out, walk_slips, offer, failed,
  get_probability, calculate_cashout, may_cash_out,
}

-- `!bonus_id || bonus_id !== 0` holds of every bet.
pub may_always : (o : Option ℕ) → may_cash_out o ≡ true
may_always none = refl
may_always (some n) = elim (Bool-cases (n == 0)) [ inl e ↦ rw e refl | inr e ↦ rw e refl ]

module _ {N : Type 0} where
  -- What follows a `try` whose `catch` only answers leaves the store as the `try` did.
  pub try_catch-store :
      {A : Type 0} (m : Action N A) (b : A) (s : Store N) → (try_catch m (return b) s).1 ≡ (m s).1
  unfolding try_catch return
  try_catch-store m b s = recovered (m s).0 b (m s).1
    where
      recovered : {A : Type 0} (r : Result A) (b : A) (t : Store N) → (recover r (return b) t).1 ≡ t
      recovered (ok a) b t = refl
      recovered thrown b t = refl

  abbrev pub slips_of_bet : Bet N → Store N → List (BetSlip N)
  slips_of_bet bet s = select_where (λ b. b.bet_id == bet.id) s.slips

  abbrev pub lost_games_of : ℕ → Store N → ℕ
  lost_games_of id s = count_where (λ b. (b.bet_id == id) && (b.won =ℤ status_lost)) s.slips

  -- The odds and the probabilities of slips, multiplied to the first argument in their order.
  abbrev pub odds_product : Floats N → N → List (BetSlip N) → N
  odds_product floats x [] = x
  odds_product floats x (b ∷ bs) = odds_product floats (floats.mul x b.odds) bs

  abbrev pub probability_product : Floats N → N → List (BetSlip N) → N
  probability_product floats x [] = x
  probability_product floats x (b ∷ bs) =
      probability_product floats (floats.mul x (get_probability floats b.event_type b.odds)) bs

  unfoldable pub has_lost : List (BetSlip N) → Bool
  has_lost bs = exists_where (λ b. b.won =ℤ status_lost) bs

  -- What is paid for a pending bet with no lost slip.
  abbrev pub price : Floats N → Bet N → Store N → N
  price floats bet s =
      let odds = odds_product floats floats.one_num (slips_of_bet bet s) in
      let probability = probability_product floats floats.one_num (slips_of_bet bet s) in
      if floats.less floats.zero_num probability
      then calculate_cashout floats s.ladders probability bet.probability bet.stake odds
      else floats.zero_num

  -- The bet is pending, none of its slips is lost, and the requested amount is the price of the bet.
  pub record Accepted (sys : System N) (id : ℕ) (amount : N) (bet : Bet N) (s : Store N)
      : Type 0 where
    pub found : find_where (λ b. b.id == id) s.bets ≡ some bet
    pub is_pending : (bet.status =ℤ bet_pending) ≡ true
    pub none_lost : has_lost (slips_of_bet bet s) ≡ false
    pub is_price : sys.floats.same (price sys.floats bet s) amount ≡ true

  -- The loop over the slips ends at a lost slip.
  pub walk_slips-none :
      (floats : Floats N) (bonus_id : Option ℕ) (bs : List (BetSlip N)) (odds probability : N)
      → exists_where (λ b. b.won =ℤ status_lost) bs ≡ true
      → walk_slips floats bonus_id odds probability bs ≡ none
  unfolding walk_slips exists_where
  walk_slips-none floats bonus_id [] odds probability h = cc
  walk_slips-none floats bonus_id (b ∷ bs) odds probability h =
      elim (Bool-cases (b.won =ℤ status_lost)) [
        | inl e ↦ rw (e, walk_slips) refl
        | inr e ↦ rw (e, walk_slips) (walk_slips-none floats bonus_id bs _ _ (rw e at h))
      ]

  -- With no lost slip it ends with the products.
  walk_slips-some :
      (floats : Floats N) (bonus_id : Option ℕ) (bs : List (BetSlip N)) (odds probability : N)
      → has_lost bs ≡ false
      → walk_slips floats bonus_id odds probability bs
        ≡ some (odds_product floats odds bs, probability_product floats probability bs)
  unfolding walk_slips exists_where has_lost
  walk_slips-some floats bonus_id [] odds probability h = refl
  walk_slips-some floats bonus_id (b ∷ bs) odds probability h =
      elim (Bool-cases (b.won =ℤ status_lost)) [
        | inl e ↦ absurd (cc (rw e at h))
        | inr e ↦
            rw (e, walk_slips, may_always bonus_id)
              (walk_slips-some floats bonus_id bs _ _ (rw e at h))
      ]

  found-id :
      (id : ℕ) (bs : List (Bet N)) (bet : Bet N)
      → find_where (λ b. b.id == id) bs ≡ some bet
      → bet.id ≡ id
  unfolding find_where
  found-id id [] bet h = absurd (cc h)
  found-id id (b ∷ bs) bet h = elim (Bool-cases (b.id == id)) [
    | inl e ↦
        let same : b ≡ bet = cc (rw e at h) in
        sym (ap (λ (c : Bet N). c.id) same) ∙ ground (arith, e)
    | inr e ↦ found-id id bs bet (rw e at h)
  ]

  offer-price :
      (floats : Floats N) (id : ℕ) (bet : Bet N) (s : Store N)
      → find_where (λ b. b.id == id) s.bets ≡ some bet
      → (bet.status =ℤ bet_pending) ≡ true
      → has_lost (slips_of_bet bet s) ≡ false
      → offer floats s.ladders bet
          (lost_games_of id s)
          (odds_product floats floats.one_num (slips_of_bet bet s))
          (probability_product floats floats.one_num (slips_of_bet bet s))
        ≡ price floats bet s
  unfolding offer has_lost
  offer-price floats id bet s found pending none_lost =
      let no_lost : lost_games_of id s ≡ 0 =
        subst (λ i. lost_games_of i s ≡ 0) (found-id id s.bets bet found)
          (count-none (λ b. b.bet_id == bet.id) (λ b. b.won =ℤ status_lost) s.slips none_lost) in
      rw (may_always bet.bonus_id, pending, no_lost) (ground arith)

  module _ (sys : System N) (id : ℕ) (amount : N) (s : Store N) where
    -- The store that a request leaves, with the bet that it finds.
    process_cashout-store :
        (o : Option (Bet N))
        → find_where (λ b. b.id == id) s.bets ≡ o
        → (process_cashout sys id amount s).1 ≡ (process_bet sys id amount o s).1
    unfolding process_cashout ◌>>=◌ get
    process_cashout-store o e = try_catch-store _ failed s ∙ rw (e, continue) refl

    process_bet-Accepted :
        (bet : Bet N)
        → find_where (λ b. b.id == id) s.bets ≡ some bet
        → ((process_bet sys id amount (some bet) s).1 ≡ s)
          ⊎ (Accepted sys id amount bet s
              × (process_bet sys id amount (some bet) s ≡ cash_out sys id amount bet s))
    unfolding process_bet at_products at_offer steps has_lost
    process_bet-Accepted bet found = elim (Bool-cases (bet.status =ℤ bet_pending)) [
      | inr e ↦ inl (rw (e, process_bet) refl)
      | inl e ↦ elim (Bool-cases (has_lost (slips_of_bet bet s))) [
        | inl lost ↦ inl (
            rw (e, process_bet, walk_slips-none sys.floats bet.bonus_id _ _ _ lost, at_products)
              refl)
        | inr none_lost ↦
            let products =
              walk_slips-some sys.floats bet.bonus_id (slips_of_bet bet s) sys.floats.one_num
                sys.floats.one_num none_lost in
            let same_price = offer-price sys.floats id bet s found e none_lost in
            elim (Bool-cases (sys.floats.same (price sys.floats bet s) amount)) [
              | inr other ↦
                  inl (rw (e, process_bet, products, at_products, same_price, other, at_offer) refl)
              | inl same ↦ inr (
                record { found = found; is_pending = e; none_lost = none_lost; is_price = same },
                rw (e, process_bet, products, at_products, same_price, same, at_offer) refl,
              )
            ]
      ]
    ]

    -- The run of an accepted request.
    pub process_bet-cashes :
        (bet : Bet N)
        → Accepted sys id amount bet s
        → process_bet sys id amount (some bet) s ≡ cash_out sys id amount bet s
    unfolding process_bet at_products at_offer steps
    process_bet-cashes bet a =
        let products =
          walk_slips-some sys.floats bet.bonus_id (slips_of_bet bet s) sys.floats.one_num
            sys.floats.one_num a.none_lost in
        let same_price = offer-price sys.floats id bet s a.found a.is_pending a.none_lost in
        rw (a.is_pending, process_bet, products, at_products, same_price, a.is_price, at_offer) refl

    pub process_cashout-Accepted :
        ((process_cashout sys id amount s).1 ≡ s)
        ⊎ ((bet : Bet N) × Accepted sys id amount bet s
            × ((process_cashout sys id amount s).1 ≡ (cash_out sys id amount bet s).1))
    unfolding process_bet throw
    process_cashout-Accepted = elim (Option-cases (find_where (λ b. b.id == id) s.bets)) [
      | inl missing ↦ inl (process_cashout-store none missing)
      | inr (bet, found) ↦ elim (process_bet-Accepted bet found) [
        | inl same ↦ inl (process_cashout-store (some bet) found ∙ same)
        | inr (accepted, e) ↦ inr (
          bet,
          accepted,
          process_cashout-store (some bet) found ∙ ap (λ (r : _ × Store N). r.1) e,
        )
      ]
    ]
