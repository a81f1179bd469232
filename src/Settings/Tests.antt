-- ===== src/Settings/Tests.antt =====
-- The settings at the samples.
use betting_service.Prelude.{ℕ}
use betting_service.Settings.{CreateSetting}

abbrev second_client : CreateSetting ℕ
second_client = record {
  client_id = 2;
  tax_on_stake = 0;
  tax_on_winning = 0;
  minimum_stake = 100;
  maximum_stake = 5000;
  maximum_winning = 100000;
  maximum_selections = 20;
  mts_limit_id = 4793;
  currency = "NGN";
  url = "example.org";
}
