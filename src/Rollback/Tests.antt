-- ===== src/Rollback/Tests.antt =====
-- Rollbacks at the samples.
use betting_service.Prelude.{◌≡◌, [], ◌∷◌, ℕ, refl}
use betting_service.Store.{Store, thrown}
use betting_service.Table.{exists_where, delete_where, update_where}
use betting_service.Cancel.{Market}
use betting_service.Rollback.{
  RollbackMessage, create_settlement_rollback, match_settlement, match_slip, reset_slip,
}
use betting_service.Rollback.Reach.{money, rollback_throws}
use betting_service.Samples.{store, running, settlement}

abbrev market : Market
market = record { id = 1; specifier = "" }

abbrev rollback_message : RollbackMessage
rollback_message = record {
  event_id = 900;
  event_type = "match";
  event_prefix = "sr";
  markets = market ∷ [];
}

abbrev settled_store : Store ℕ
settled_store = record store {
  settlements = record settlement { event_id = 900; market_id = 1; specifier = "" } ∷ [];
}

rollback_throws_example :
    let (r, t) = create_settlement_rollback running rollback_message settled_store in
    (r ≡ thrown)
    × (t.settlements
        ≡ delete_where (match_settlement rollback_message market) settled_store.settlements)
    × (t.slips ≡ update_where (match_slip rollback_message market) reset_slip store.slips)
    × (money t ≡ money settled_store)
unfolding match_settlement exists_where
rollback_throws_example =
    rollback_throws running rollback_message settled_store market [] refl refl refl
