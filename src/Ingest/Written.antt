-- ===== src/Ingest/Written.antt =====
-- What settling one outcome of src/consumers/workers/settlement.service.ts writes, and what a
-- second message on that outcome writes.
use betting_service.Prelude.{
  ℕ, ◌≡◌, refl, String, Bool, true, false, List, [], ◌∷◌, some, arith, Bool-cases, inl, inr,
  str_eq_refl, ==_self, ◌⊎◌, ◌∙◌,
}
use betting_service.Table.Rows.{update_where-none, exists-update_none}
use betting_service.Table.{update_where, exists_where, find_where}
use betting_service.Entity.Slip.{BetSlip}
use betting_service.Entity.Records.{Settlement}
use betting_service.Store.{Store, System, ok}
use betting_service.Store.Action.{steps}
use betting_service.Ingest.{
  SettlementMessage, SettledMarket, Outcome, Scores, settle_outcome, settle_slips,
  upsert_settlement, is_settlement, bet_exists, is_pending_in, settle_match_outcome,
  write_match_slip, ℤ,
}

-- After a write over the rows of a key, a query that finds only rows of that key finds a written
-- one, if there was a row.
find-overwrite {ℓ} :
    {A : Type ℓ} {κ : Type 0} (col : A → κ) (v : κ) (key q : A → Bool) (f : A → A)
    → ((x : A) → q (f x) ≡ true)
    → ((x : A) → col (f x) ≡ v)
    → ((x : A) → key x ≡ false → q x ≡ false)
    → (xs : List A) → exists_where key xs ≡ true
    → (y : A) × (find_where q (update_where key f xs) ≡ some y) × (col y ≡ v)
unfolding exists_where find_where update_where
find-overwrite col v key q f hit put miss [] h = cc
find-overwrite col v key q f hit put miss (x ∷ xs) h = elim (Bool-cases (key x)) [
  | inl e ↦ rw (e, hit x) (f x, refl, put x)
  | inr e ↦ rw (e, miss x e) (find-overwrite col v key q f hit put miss xs (rw e at h))
]

module _ {N : Type 0} (is_bet : BetSlip N → Bool) (is_key is_row : Settlement N → Bool)
    (overwrite : Settlement N → Settlement N) (fresh : ℕ → Settlement N)
    (in_scope : BetSlip N → Bool) (settle : ℕ → BetSlip N → BetSlip N) where
  upsert-finds :
      {κ : Type 0} (col : Settlement N → κ) (v : κ)
      → ((x : Settlement N) → is_row (overwrite x) ≡ true)
      → ((x : Settlement N) → col (overwrite x) ≡ v)
      → ((id : ℕ) → (is_row (fresh id) ≡ true) × (col (fresh id) ≡ v))
      → ((x : Settlement N) → is_key x ≡ false → is_row x ≡ false)
      → (s : Store N)
      → (y : Settlement N) × (find_where is_row
            (upsert_settlement is_key overwrite fresh s).settlements
          ≡ some y)
        × (col y ≡ v)
  unfolding upsert_settlement find_where
  upsert-finds col v hit put new miss s = elim (Bool-cases (exists_where is_key s.settlements)) [
    | inl e ↦
        rw (e, upsert_settlement)
          (find-overwrite col v is_key is_row overwrite hit put miss s.settlements e)
    | inr e ↦
        rw (e, upsert_settlement, (new s.next_settlement).0, find_where)
          (fresh s.next_settlement, refl, (new s.next_settlement).1)
  ]

  upsert-slips : (s : Store N) → (upsert_settlement is_key overwrite fresh s).slips ≡ s.slips
  unfolding upsert_settlement
  upsert-slips s = ground arith

  -- The row that the upsert wrote is found, and the slips in scope carry its id.
  settle_outcome-writes :
      {κ : Type 0} (col : Settlement N → κ) (v : κ)
      → ((x : Settlement N) → is_row (overwrite x) ≡ true)
      → ((x : Settlement N) → col (overwrite x) ≡ v)
      → ((id : ℕ) → (is_row (fresh id) ≡ true) × (col (fresh id) ≡ v))
      → ((x : Settlement N) → is_key x ≡ false → is_row x ≡ false)
      → (s : Store N) → exists_where is_bet s.slips ≡ true
      → let run =
          settle_outcome is_bet (upsert_settlement is_key overwrite fresh) is_row in_scope settle in
        (y : Settlement N) × ((run s).0 ≡ ok 1)
        × (find_where is_row (run s).1.settlements ≡ some y)
        × (col y ≡ v)
        × ((run s).1.slips ≡ update_where in_scope (settle y.id) s.slips)
  unfolding settle_outcome settle_slips steps
  settle_outcome-writes col v hit put new miss s known =
      let (y, found, e) = upsert-finds col v hit put new miss s in
      (
        y,
        rw (known, found, settle_slips) refl,
        rw (known, found, settle_slips) found,
        e,
        rw (known, found, settle_slips, upsert-slips s) refl,
      )

  settle_outcome-slips :
      ((s : Store N)
        → (y : Settlement N) × (find_where is_row
              (upsert_settlement is_key overwrite fresh s).settlements
            ≡ some y))
      → (s : Store N)
      → let t =
          (settle_outcome is_bet
            (upsert_settlement is_key overwrite fresh)
            is_row
            in_scope
            settle
            s).1 in
        (t.slips ≡ s.slips) × (exists_where is_bet s.slips ≡ false)
        ⊎ ((id : ℕ) × (exists_where is_bet s.slips ≡ true)
            × (t.slips ≡ update_where in_scope (settle id) s.slips))
  unfolding settle_outcome settle_slips steps
  settle_outcome-slips finds s = elim (Bool-cases (exists_where is_bet s.slips)) [
    | inl e ↦
        let (y, found) = finds s in inr (y.id, e, rw (e, found, settle_slips, upsert-slips s) refl)
    | inr e ↦ inl (rw e refl, e)
  ]

is_settlement_self :
    {N : Type 0} (st : Settlement N)
    → is_settlement st.event_id st.market_id st.specifier st.outcome_id st ≡ true
unfolding is_settlement
is_settlement_self st = ground (
  arith,
  ==_self st.event_id,
  ==_self st.market_id,
  str_eq_refl st.specifier,
  str_eq_refl st.outcome_id,
)

module _ {N : Type 0} (sys : System N) (msg : SettlementMessage N) (scores : Scores)
    (market : SettledMarket N) (outcome : Outcome N) where
  -- If there is a slip on the outcome, settling it returns 1, and the settlement that is then found by
  -- the event, market, specifier and outcome has the result of the message; every slip that was
  -- pending on the outcome gets the id of this settlement, and the result and factors of the message.
  pub settle_match_outcome-writes :
      (s : Store N)
      → exists_where
          (bet_exists "sr" msg.event_type msg.event_id market.id market.specifier outcome.id)
          s.slips
        ≡ true
      → let r = settle_match_outcome sys msg scores market outcome s in
        (y : Settlement N) × (r.0 ≡ ok 1)
        × (find_where
              (is_settlement msg.event_id market.id market.specifier outcome.id)
              r.1.settlements
            ≡ some y)
        × (y.status ≡ outcome.result)
        × (r.1.slips
            ≡ update_where
                (is_pending_in msg.event_id market.id market.specifier outcome.id)
                (write_match_slip sys outcome y.id)
                s.slips)
  unfolding settle_match_outcome
  settle_match_outcome-writes s known =
      settle_outcome-writes _ _ _ _ _ _ _ (λ x. x.status) outcome.result (λ x. is_settlement_self _)
        (λ x. refl) (λ id. (is_settlement_self _, refl)) (λ x h. h) s known

module _ {N : Type 0} (sys : System N) (msg : SettlementMessage N) (scores : Scores)
    (market : SettledMarket N) (outcome : Outcome N) (s : Store N) where
  match_outcome-slips :
      let t = (settle_match_outcome sys msg scores market outcome s).1 in
      let known =
        exists_where
          (bet_exists "sr" msg.event_type msg.event_id market.id market.specifier outcome.id)
          s.slips in
      (t.slips ≡ s.slips) × (known ≡ false)
      ⊎ ((id : ℕ) × (known ≡ true)
          × (t.slips
              ≡ update_where
                  (is_pending_in msg.event_id market.id market.specifier outcome.id)
                  (write_match_slip sys outcome id)
                  s.slips))
  unfolding settle_match_outcome
  match_outcome-slips =
      settle_outcome-slips _ _ _ _ _ _ _
        (λ s'.
          let (y, found, e) =
            upsert-finds (λ b. true) _ _ _ _ (λ b. true) (λ id b. b) (λ x. x.status) outcome.result
              (λ x. is_settlement_self _) (λ x. refl) (λ id. (is_settlement_self _, refl))
              (λ x h. h) s' in
          (y, found))
        s

settled_none :
    {N : Type 0} (sys : System N) (event_id market_id : ℕ) (specifier : String)
    (outcome : Outcome N) (id : ℕ) (b : BetSlip N)
    → is_pending_in event_id market_id specifier outcome.id (write_match_slip sys outcome id b)
      ≡ false
unfolding is_pending_in
settled_none sys event_id market_id specifier outcome id b = ground arith

-- An outcome is settled once: after it, a message with another result or factors for that outcome
-- changes no slip.
pub settle_match_outcome-once :
    {N : Type 0} (sys sys' : System N) (msg : SettlementMessage N) (scores scores' : Scores)
    (market : SettledMarket N) (outcome : Outcome N) (result : ℤ) (void_factor dead_heat_factor : N)
    (s : Store N)
    → let t = (settle_match_outcome sys msg scores market outcome s).1 in
      let later = record outcome {
        result = result;
        void_factor = void_factor;
        dead_heat_factor = dead_heat_factor;
      } in
      (settle_match_outcome sys' msg scores' market later t).1.slips ≡ t.slips
settle_match_outcome-once sys sys' msg scores scores' market outcome result vf df s =
    let r = settle_match_outcome sys msg scores market outcome in
    let later = record outcome { result = result; void_factor = vf; dead_heat_factor = df } in
    elim (match_outcome-slips sys' msg scores' market later (r s).1) [
      | inl (e, unknown) ↦ e
      | inr (id', known, e') ↦ elim (match_outcome-slips sys msg scores market outcome s) [
        | inl (e, unknown) ↦ cc (e, unknown, known)
        | inr (id, k, e) ↦
            e'
            ∙ update_where-none _ _ _ (
                rw e (
                  exists-update_none _ _ _
                    (λ b h. settled_none sys msg.event_id market.id market.specifier outcome id b)
                    (λ b h. h) s.slips))
      ]
    ]
