-- ===== src/Settings/Stored.antt =====
-- What `createSettings` of src/settings/settings.service.ts stores, and what is read of it.
use betting_service.Entity.Records.{Setting}
use betting_service.Prelude.{some, [], ◌∷◌, ◌++◌}
use betting_service.Floats.{Floats}
use betting_service.Store.{Store}
use betting_service.Settings.{CreateSetting, SettingsResponse, setting_of, stored_setting}

module _ {N : Type 0} (floats : Floats N) (req : CreateSetting N) (s : Store N) where
  -- The settings as they were given.
  abbrev pub answer : SettingsResponse N
  answer = record {
    client_id = req.client_id;
    tax_on_stake = req.tax_on_stake;
    tax_on_winning = req.tax_on_winning;
    minimum_stake = req.minimum_stake;
    maximum_stake = req.maximum_stake;
    maximum_winning = req.maximum_winning;
    maximum_selections = req.maximum_selections;
    mts_limit_id = req.mts_limit_id;
    currency = req.currency;
    url = some req.url;
  }

  -- The settings as they are stored.
  abbrev pub stored_answer : SettingsResponse N
  stored_answer = record answer {
    tax_on_stake = floats.decimal req.tax_on_stake;
    tax_on_winning = floats.decimal req.tax_on_winning;
    minimum_stake = floats.decimal req.minimum_stake;
    maximum_stake = floats.decimal req.maximum_stake;
    maximum_winning = floats.decimal req.maximum_winning;
  }

  abbrev row : Setting N
  row = stored_setting floats (setting_of req)

  abbrev grown : Store N
  grown = record s { settings = s.settings ++ row ∷ [] }
