-- ===== src/Cancel/Tests.antt =====
-- Cancellations at the samples.
use betting_service.Prelude.{◌≡◌, some, none, [], ◌∷◌}
use betting_service.Cancel.{CancelMessage, process_bet_cancel, process_outrights_bet_cancel}
use betting_service.Cancel.Refunds.{bet_cancel-refunds_none}
use betting_service.Samples.{store, running}

abbrev cancel_message : CancelMessage
cancel_message = record {
  event_id = 900;
  event_type = "match";
  event_prefix = "sr";
  start_time = some 900;
  end_time = none;
  markets = record { id = 1; specifier = "" } ∷ [];
}

bet_cancel-refunds_none_example :
    ((process_bet_cancel running cancel_message store).1.sent ≡ store.sent)
    × ((process_outrights_bet_cancel running cancel_message store).1.sent ≡ store.sent)
bet_cancel-refunds_none_example = bet_cancel-refunds_none running cancel_message store
