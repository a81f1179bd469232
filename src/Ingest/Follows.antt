-- ===== src/Ingest/Follows.antt =====
-- Settlement messages follow the ledger: they write no bet (src/consumers/workers/settlement.service.ts).
use betting_service.Prelude.{
  ℕ, ◌+◌, ◌≡◌, Bool, List, [], ◌∷◌, Option, none, some, inl, inr, Bool-cases, arith,
}
use betting_service.Entity.Slip.{BetSlip}
use betting_service.Entity.Records.{Settlement}
use betting_service.Store.{Store, System}
use betting_service.Store.Action.{Action}
use betting_service.Store.Keeps.{Keeps-return, Keeps-bind, Keeps-get}
use betting_service.Ledger.{Ledger, view}
use betting_service.Ledger.Rules.{Follows, following, Steps-same}
use betting_service.Ingest.{
  SettlementMessage, SettledMarket, Outcome, Scores, upsert_settlement, settle_slips,
  settle_outcome, settle_match_outcome, settle_outright_outcome, settle_outcomes, settle_markets,
  settle_all, create_settlement, create_outright_settlement,
}

module _ {N : Type 0} (l : Ledger N) where
  upsert_settlement-view :
      (is_key : Settlement N → Bool) (overwrite : Settlement N → Settlement N)
      (fresh : ℕ → Settlement N) (s : Store N)
      → view (upsert_settlement is_key overwrite fresh s) ≡ view s
  unfolding upsert_settlement
  upsert_settlement-view is_key overwrite fresh s = ground arith

  settle_slips-Follows :
      (in_scope : BetSlip N → Bool) (settle : ℕ → BetSlip N → BetSlip N)
      (row : Option (Settlement N))
      → Follows l (settle_slips in_scope settle row)
  unfolding settle_slips
  settle_slips-Follows in_scope settle none = search following
  settle_slips-Follows in_scope settle (some row) = search following

  settle_outcome-Follows :
      (is_bet : BetSlip N → Bool) (upsert : Store N → Store N) (is_row : Settlement N → Bool)
      (in_scope : BetSlip N → Bool) (settle : ℕ → BetSlip N → BetSlip N)
      → ((s : Store N) → view (upsert s) ≡ view s)
      → Follows l (settle_outcome is_bet upsert is_row in_scope settle)
  unfolding settle_outcome
  settle_outcome-Follows is_bet upsert is_row in_scope settle same =
      Keeps-bind _ _ (Keeps-get _) (λ known. elim (Bool-cases known) [
        | inr e ↦ rw e (Keeps-return _)
        | inl e ↦ rw e (
            Keeps-bind _ _ (Steps-same l upsert same)
              (λ _. Keeps-bind _ _ (Keeps-get _) (λ row. settle_slips-Follows in_scope settle row)))
      ])

  settle_outcomes-Follows :
      (settle : Outcome N → Action N ℕ)
      → ((o : Outcome N) → Follows l (settle o))
      → (os : List (Outcome N)) (counts : ℕ) → Follows l (settle_outcomes settle os counts)
  unfolding settle_outcomes
  settle_outcomes-Follows settle h [] counts = search following
  settle_outcomes-Follows settle h (o ∷ os) counts =
      Keeps-bind _ _ (h o) (λ k. settle_outcomes-Follows settle h os (counts + k))

  settle_markets-Follows :
      (settle : SettledMarket N → Outcome N → Action N ℕ)
      → ((m : SettledMarket N) (o : Outcome N) → Follows l (settle m o))
      → (ms : List (SettledMarket N)) (counts : ℕ) → Follows l (settle_markets settle ms counts)
  unfolding settle_markets
  settle_markets-Follows settle h [] counts = search following
  settle_markets-Follows settle h (m ∷ ms) counts =
      Keeps-bind _ _ (settle_outcomes-Follows (settle m) (h m) m.outcomes counts)
        (λ k. settle_markets-Follows settle h ms k)

  settle_all-Follows :
      (settle : SettledMarket N → Outcome N → Action N ℕ) (ms : Option (List (SettledMarket N)))
      → ((m : SettledMarket N) (o : Outcome N) → Follows l (settle m o))
      → Follows l (settle_all settle ms)
  unfolding settle_all
  settle_all-Follows settle none h = search following
  settle_all-Follows settle (some ms) h = settle_markets-Follows settle h ms 0

  pub create_settlement-Follows :
      (sys : System N) (scores : Option Scores) (msg : SettlementMessage N)
      → Follows l (create_settlement sys scores msg)
  unfolding create_settlement settle_match_outcome
  create_settlement-Follows sys scores msg =
      settle_all-Follows _ msg.markets
        (λ m o. settle_outcome-Follows _ _ _ _ _ (upsert_settlement-view _ _ _))

  pub create_outright_settlement-Follows :
      (msg : SettlementMessage N) → Follows l (create_outright_settlement msg)
  unfolding create_outright_settlement settle_outright_outcome
  create_outright_settlement-Follows msg =
      settle_all-Follows _ msg.markets
        (λ m o. settle_outcome-Follows _ _ _ _ _ (upsert_settlement-view _ _ _))
