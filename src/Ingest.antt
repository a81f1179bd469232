-- ===== src/Ingest.antt =====
-- Settlements from the feed: `createSettlement`, `createOutrightSettlement` and `betExists` of
-- src/consumers/workers/settlement.service.ts.
pub mod Follows
mod Tests
pub mod Written
use betting_service.Prelude.{
  ℕ, suc, ◌+◌, String, Bool, true, false, ◌&&◌, ◌==◌, str_eq, if◌then◌else◌, List, [], ◌∷◌, Option,
  none, some,
}
use betting_service.Int.{ℤ, ◌=ℤ◌, betslip_processing_pending, betslip_processing_settled}
use betting_service.Table.{update_where, exists_where, find_where}
use betting_service.Entity.Slip.{BetSlip}
use betting_service.Entity.Records.{Settlement}
use betting_service.Store.{Store, System}
use betting_service.Store.Action.{Action, return, throw, get, modify, ◌>>=◌, ◌>>◌}

pub record Outcome (N : Type 0) : Type 0 where
  pub id : String
  pub result : ℤ
  pub void_factor : N
  pub dead_heat_factor : N

pub record SettledMarket (N : Type 0) : Type 0 where
  pub id : ℕ
  pub specifier : String
  pub outcomes : List (Outcome N)

-- A message; `markets` may be absent.
pub record SettlementMessage (N : Type 0) : Type 0 where
  pub event_id : ℕ
  pub event_type : String
  pub event_prefix : String
  pub producer_id : ℕ
  pub markets : Option (List (SettledMarket N))

-- What `getMatchInfo` finds in the feed's summary of the match.
pub record Scores : Type 0 where
  pub ft_score : String
  pub ht_score : String

abbrev pub no_scores : Scores
no_scores = record { ft_score = "-"; ht_score = "-" }

abbrev pub scores_of : Option Scores → Scores
scores_of none = no_scores
scores_of (some scores) = scores

module _ {N : Type 0} where
  pub bet_exists :
      (event_prefix event_type : String)
      → (event_id market_id : ℕ) → (specifier outcome_id : String) → BetSlip N
      → Bool
  bet_exists event_prefix event_type event_id market_id specifier outcome_id b =
      (b.match_id == event_id)
      && str_eq b.event_type event_type
      && str_eq b.event_prefix event_prefix
      && (b.market_id == market_id)
      && str_eq b.specifier specifier
      && str_eq b.outcome_id outcome_id

  -- The unique index of the settlements.
  pub is_settlement :
      (event_id market_id : ℕ) → (specifier outcome_id : String) → Settlement N → Bool
  is_settlement event_id market_id specifier outcome_id st =
      (st.event_id == event_id)
      && (st.market_id == market_id)
      && str_eq st.specifier specifier
      && str_eq st.outcome_id outcome_id

  -- `settlementRepository.upsert`: by the unique index a row is written over, or a new one inserted.
  pub upsert_settlement :
      (Settlement N → Bool) → (Settlement N → Settlement N) → (ℕ → Settlement N) → Store N → Store N
  upsert_settlement is_key overwrite fresh s =
      if exists_where is_key s.settlements
      then record s { settlements = update_where is_key overwrite s.settlements }
      else record s {
        settlements = fresh s.next_settlement ∷ s.settlements;
        next_settlement = suc s.next_settlement;
      }

  -- From the answer of `findOne` on: reading the id of no row throws.
  pub settle_slips :
      (BetSlip N → Bool) → (ℕ → BetSlip N → BetSlip N) → Option (Settlement N) → Action N ℕ
  settle_slips in_scope settle none = throw
  settle_slips in_scope settle (some row) =
      modify (λ s. record s { slips = update_where in_scope (settle row.id) s.slips }) >> return 1

  -- One turn of the inner loop; its result is added to `counts`.
  pub settle_outcome :
      (is_bet : BetSlip N → Bool)
      → (upsert : Store N → Store N) → (is_row : Settlement N → Bool)
      → (in_scope : BetSlip N → Bool) → (settle : ℕ → BetSlip N → BetSlip N) → Action N ℕ
  settle_outcome is_bet upsert is_row in_scope settle = do
    known ← get (λ s. exists_where is_bet s.slips)
    elim known [
      | false ↦ return 0
      | true ↦ do
        modify upsert
        row ← get (λ s. find_where is_row s.settlements)
        settle_slips in_scope settle row
    ]

  -- The rows that `createSettlement` writes. It gives no prefix: a new row has the default.
  abbrev pub match_overwrite :
      SettlementMessage N → Scores → SettledMarket N → Outcome N → Settlement N → Settlement N
  match_overwrite msg scores market outcome st = record st {
    event_id = msg.event_id;
    event_type = msg.event_type;
    market_id = market.id;
    specifier = market.specifier;
    outcome_id = outcome.id;
    status = outcome.result;
    producer_id = msg.producer_id;
    void_factor = outcome.void_factor;
    dead_heat_factor = outcome.dead_heat_factor;
    ft_score = some scores.ft_score;
    ht_score = some scores.ht_score;
  }

  -- A new row, before the given columns; `result` and the factors are given in both handlers.
  abbrev pub blank_settlement : Outcome N → ℕ → Settlement N
  blank_settlement outcome id = record {
    id = id;
    event_id = 0;
    event_type = "match";
    event_prefix = "sr";
    producer_id = 3;
    market_id = 0;
    specifier = "";
    outcome_id = "";
    ft_score = none;
    ht_score = none;
    status = outcome.result;
    processed = 0;
    void_factor = outcome.void_factor;
    dead_heat_factor = outcome.dead_heat_factor;
  }

  abbrev pub outright_overwrite :
      SettlementMessage N → SettledMarket N → Outcome N → Settlement N → Settlement N
  outright_overwrite msg market outcome st = record st {
    event_id = msg.event_id;
    event_type = msg.event_type;
    event_prefix = msg.event_prefix;
    market_id = market.id;
    specifier = market.specifier;
    outcome_id = outcome.id;
    status = outcome.result;
    producer_id = msg.producer_id;
    void_factor = outcome.void_factor;
    dead_heat_factor = outcome.dead_heat_factor;
  }

  abbrev pub write_outright_slip : Outcome N → ℕ → BetSlip N → BetSlip N
  write_outright_slip outcome row_id b = record b {
    settlement_id = some row_id;
    won = outcome.result;
    dead_heat_factor = some outcome.dead_heat_factor;
    void_factor = some outcome.void_factor;
    status = betslip_processing_settled;
  }

  abbrev pub write_match_slip : System N → Outcome N → ℕ → BetSlip N → BetSlip N
  write_match_slip sys outcome row_id b = record (write_outright_slip outcome row_id b) {
    settled_at = some sys.now;
    settlement_type = some "betradar";
  }

  pub is_pending_in : (event_id market_id : ℕ) → (specifier outcome_id : String) → BetSlip N → Bool
  is_pending_in event_id market_id specifier outcome_id b =
      (b.match_id == event_id)
      && (b.market_id == market_id)
      && str_eq b.specifier specifier
      && str_eq b.outcome_id outcome_id
      && (b.status =ℤ betslip_processing_pending)

  pub is_outright_pending_in :
      (event_prefix event_type : String)
      → (event_id market_id : ℕ) → (specifier outcome_id : String) → BetSlip N
      → Bool
  is_outright_pending_in event_prefix event_type event_id market_id specifier outcome_id b =
      str_eq b.event_type event_type
      && str_eq b.event_prefix event_prefix
      && is_pending_in event_id market_id specifier outcome_id b

  pub is_outright_settlement :
      (event_prefix event_type : String)
      → (event_id market_id : ℕ) → (specifier outcome_id : String) → Settlement N
      → Bool
  is_outright_settlement event_prefix event_type event_id market_id specifier outcome_id st =
      str_eq st.event_type event_type
      && str_eq st.event_prefix event_prefix
      && is_settlement event_id market_id specifier outcome_id st

  pub settle_match_outcome :
      System N → SettlementMessage N → Scores → SettledMarket N → Outcome N → Action N ℕ
  settle_match_outcome sys msg scores market outcome =
      settle_outcome
        (bet_exists "sr" msg.event_type msg.event_id market.id market.specifier outcome.id)
        (upsert_settlement (is_settlement msg.event_id market.id market.specifier outcome.id)
          (match_overwrite msg scores market outcome)
          (λ id. match_overwrite msg scores market outcome (blank_settlement outcome id)))
        (is_settlement msg.event_id market.id market.specifier outcome.id)
        (is_pending_in msg.event_id market.id market.specifier outcome.id)
        (write_match_slip sys outcome)

  pub settle_outright_outcome : SettlementMessage N → SettledMarket N → Outcome N → Action N ℕ
  settle_outright_outcome msg market outcome =
      settle_outcome
        (bet_exists msg.event_prefix msg.event_type msg.event_id market.id market.specifier
          outcome.id)
        (upsert_settlement (is_settlement msg.event_id market.id market.specifier outcome.id)
          (outright_overwrite msg market outcome)
          (λ id. outright_overwrite msg market outcome (blank_settlement outcome id)))
        (is_outright_settlement msg.event_prefix msg.event_type msg.event_id market.id
          market.specifier outcome.id)
        (is_outright_pending_in msg.event_prefix msg.event_type msg.event_id market.id
          market.specifier outcome.id)
        (write_outright_slip outcome)

  pub settle_outcomes : (Outcome N → Action N ℕ) → List (Outcome N) → (counts : ℕ) → Action N ℕ
  settle_outcomes settle [] counts = return counts
  settle_outcomes settle (o ∷ os) counts = settle o >>= λ k. settle_outcomes settle os (counts + k)

  pub settle_markets :
      (SettledMarket N → Outcome N → Action N ℕ)
      → List (SettledMarket N)
      → (counts : ℕ) → Action N ℕ
  settle_markets settle [] counts = return counts
  settle_markets settle (m ∷ ms) counts =
      settle_outcomes (settle m) m.outcomes counts >>= λ k. settle_markets settle ms k

  pub settle_all :
      (SettledMarket N → Outcome N → Action N ℕ) → Option (List (SettledMarket N)) → Action N ℕ
  settle_all settle none = return 0
  settle_all settle (some ms) = settle_markets settle ms 0

  -- `scores` is what `getMatchInfo` returns, nothing if the request fails.
  pub create_settlement : System N → Option Scores → SettlementMessage N → Action N ℕ
  create_settlement sys scores msg =
      settle_all (settle_match_outcome sys msg (scores_of scores)) msg.markets

  pub create_outright_settlement : SettlementMessage N → Action N ℕ
  create_outright_settlement msg = settle_all (settle_outright_outcome msg) msg.markets
