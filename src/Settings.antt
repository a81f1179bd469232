-- ===== src/Settings.antt =====
-- The settings of a client: src/settings/settings.service.ts. The stamps `created` and `updated` are
-- left out. What `upsert` makes of the rows is an argument: the columns that it is given as the
-- conflict have no unique index.
pub mod Stored
mod Tests
use betting_service.Prelude.{
  ℕ, ◌==◌, String, Bool, true, false, if◌then◌else◌, List, [], ◌∷◌, ◌++◌, map, Option, none, some,
}
use betting_service.Floats.{Floats}
use betting_service.Table.{exists_where, find_where}
use betting_service.Entity.Records.{Setting}
use betting_service.Store.{Store, ok, thrown}
use betting_service.Store.Action.{Action, return, throw, get, modify, ◌>>=◌, ◌>>◌}

-- CreateSetting
pub record CreateSetting (N : Type 0) : Type 0 where
  pub client_id : ℕ
  pub tax_on_stake : N
  pub tax_on_winning : N
  pub minimum_stake : N
  pub maximum_stake : N
  pub maximum_winning : N
  pub maximum_selections : ℕ
  pub mts_limit_id : ℕ
  pub currency : String
  pub url : String

-- SettingsResponse
pub record SettingsResponse (N : Type 0) : Type 0 where
  pub client_id : ℕ
  pub tax_on_stake : N
  pub tax_on_winning : N
  pub minimum_stake : N
  pub maximum_stake : N
  pub maximum_winning : N
  pub maximum_selections : ℕ
  pub mts_limit_id : ℕ
  pub currency : String
  pub url : Option String

module _ {N : Type 0} where
  unfoldable pub setting_of : CreateSetting N → Setting N
  setting_of req = record {
    client_id = req.client_id;
    tax_on_stake = req.tax_on_stake;
    tax_on_winning = req.tax_on_winning;
    minimum_stake = req.minimum_stake;
    maximum_stake = req.maximum_stake;
    maximum_winning = req.maximum_winning;
    maximum_selections = req.maximum_selections;
    mts_limit_id = req.mts_limit_id;
    currency = req.currency;
    url = some req.url;
  }

  unfoldable pub get_settings_response : Setting N → SettingsResponse N
  get_settings_response saved = record {
    client_id = saved.client_id;
    tax_on_stake = saved.tax_on_stake;
    tax_on_winning = saved.tax_on_winning;
    minimum_stake = saved.minimum_stake;
    maximum_stake = saved.maximum_stake;
    maximum_winning = saved.maximum_winning;
    maximum_selections = saved.maximum_selections;
    mts_limit_id = saved.mts_limit_id;
    currency = saved.currency;
    url = saved.url;
  }

  -- The row, as the DECIMAL columns hold it.
  abbrev pub stored_setting : Floats N → Setting N → Setting N
  stored_setting floats x = record x {
    tax_on_stake = decimal x.tax_on_stake;
    tax_on_winning = decimal x.tax_on_winning;
    minimum_stake = decimal x.minimum_stake;
    maximum_stake = decimal x.maximum_stake;
    maximum_winning = decimal x.maximum_winning;
  }
    where
      open floats use {decimal}

  -- `save` of a new row: the entity that it returns keeps the numbers that it was given; the unique index on `client_id` refuses a second row of a client.
  unfoldable pub insert_setting : Floats N → Setting N → Action N (Setting N)
  insert_setting floats setting s =
      if exists_where (λ x. x.client_id == setting.client_id) s.settings
      then (thrown, s)
      else (ok setting, record s { settings = s.settings ++ stored_setting floats setting ∷ [] })

  unfoldable pub create_settings : Floats N → CreateSetting N → Action N (SettingsResponse N)
  create_settings floats req = do
    saved ← insert_setting floats (setting_of req)
    return (get_settings_response saved)

  -- The columns of no row are read with a throw.
  unfoldable pub response_to : Option (Setting N) → Action N (SettingsResponse N)
  response_to none = throw
  response_to (some saved) = return (get_settings_response saved)

  unfoldable pub find_one : (client_id : ℕ) → Action N (SettingsResponse N)
  find_one client_id = do
    saved ← get (λ s. find_where (λ x. x.client_id == client_id) s.settings)
    response_to saved

  unfoldable pub find_all : Action N (List (SettingsResponse N))
  find_all = get (λ s. map get_settings_response s.settings)

  -- What `upsert` writes, or its throw.
  unfoldable pub write_settings : Option (List (Setting N)) → Action N (Unit {0})
  write_settings none = throw
  write_settings (some rows) = modify (λ s. record s { settings = rows })

  unfoldable pub update_settings :
      (upsert : Setting N → List (Setting N) → Option (List (Setting N)))
      → CreateSetting N
      → Action N (SettingsResponse N)
  update_settings upsert req = do
    rows ← get (λ s. upsert (setting_of req) s.settings)
    write_settings rows
    find_one req.client_id
