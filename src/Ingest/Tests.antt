-- ===== src/Ingest/Tests.antt =====
-- The settlements of an outcome at the samples.
use betting_service.Prelude.{ℕ, ◌≡◌, refl, some, [], ◌∷◌}
use betting_service.Int.{pos}
use betting_service.Table.{exists_where, update_where, find_where}
use betting_service.Entity.Records.{Settlement}
use betting_service.Store.{ok}
use betting_service.Ingest.{
  Outcome, SettledMarket, SettlementMessage, settle_match_outcome, bet_exists, is_settlement,
  is_pending_in, write_match_slip, no_scores,
}
use betting_service.Ingest.Written.{settle_match_outcome-writes, settle_match_outcome-once}
use betting_service.Samples.{running, store}

abbrev home_wins : Outcome ℕ
home_wins = record { id = "1"; result = pos 1; void_factor = 0; dead_heat_factor = 0 }

abbrev market : SettledMarket ℕ
market = record { id = 1; specifier = ""; outcomes = home_wins ∷ [] }

abbrev message : SettlementMessage ℕ
message = record {
  event_id = 900;
  event_type = "match";
  event_prefix = "sr";
  producer_id = 3;
  markets = some (market ∷ []);
}

settle_match_outcome-writes_example :
    let r = settle_match_outcome running message no_scores market home_wins store in
    (y : Settlement ℕ) × (r.0 ≡ ok 1)
    × (find_where (is_settlement 900 1 "" "1") r.1.settlements ≡ some y)
    × (y.status ≡ pos 1)
    × (r.1.slips
        ≡ update_where
            (is_pending_in 900 1 "" "1")
            (write_match_slip running home_wins y.id)
            store.slips)
unfolding exists_where bet_exists
settle_match_outcome-writes_example =
    settle_match_outcome-writes running message no_scores market home_wins store refl

settle_match_outcome-once_example :
    let t = (settle_match_outcome running message no_scores market home_wins store).1 in
    (settle_match_outcome running message no_scores market
      (record home_wins { result = pos 0 })
      t).1.slips
    ≡ t.slips
settle_match_outcome-once_example =
    settle_match_outcome-once running running message no_scores no_scores market home_wins (pos 0) 0
      0 store
