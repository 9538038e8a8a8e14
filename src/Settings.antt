-- ===== src/Settings.antt =====
-- packages/backend/src/config/config.service.ts: the platform's settings, one row behind a cache. A
-- value from the cache is a copy.
pub mod Coherent
pub mod Contract
mod Tests
use Prim.Native.String.{String}
use backit_on_stellar.Prelude.{ℕ, Bool, true, false, List, [], ◌∷◌, Option, none, some, or_else}

pub record PlatformSettings : Type 0 where
  pub fee_percent : ℕ
  pub contract_id : Option String
  pub oracle_contract_id : Option String
  pub min_stake : ℕ
  pub max_duration : ℕ
  pub supported_tokens : List String
  pub contract_addresses : List (String × String)
  pub last_updated_by_tx_hash : Option String
  pub last_updated_at_ledger : Option ℕ

-- A field that the event does not have is none.
pub record AdminParamsChanged : Type 0 where
  pub fee_percent : Option ℕ
  pub contract_id : Option String
  pub oracle_contract_id : Option String
  pub tx_hash : String
  pub ledger : ℕ

pub record UpdateConfig : Type 0 where
  pub fee_percent : Option ℕ
  pub min_stake : Option ℕ
  pub max_duration : Option ℕ
  pub supported_tokens : Option (List String)
  pub contract_addresses : Option (List (String × String))

-- The cache manager at the key of the settings, at a time and with a time to live.
pub record SettingsCache : Type 1 where
  pub Table : Type 0
  pub get : Table → ℕ → Option PlatformSettings
  pub set : Table → ℕ → PlatformSettings → ℕ → Table
  pub del : Table → Table

-- The singleton row, the cache, and the fees that `config.updated` told, the newest first.
pub record Settings (T : Type 0) : Type 0 where
  pub row : Option PlatformSettings
  pub cached : T
  pub told : List ℕ

abbrev pub or_old : Option String → Option String → Option String
or_old none old = old
or_old (some new) old = some new

abbrev pub changed : PlatformSettings → AdminParamsChanged → PlatformSettings
changed v e = record v {
  fee_percent = or_else e.fee_percent v.fee_percent;
  contract_id = or_old e.contract_id v.contract_id;
  oracle_contract_id = or_old e.oracle_contract_id v.oracle_contract_id;
  last_updated_by_tx_hash = some e.tx_hash;
  last_updated_at_ledger = some e.ledger;
}

abbrev pub configured : PlatformSettings → UpdateConfig → PlatformSettings
configured v u = record v {
  fee_percent = or_else u.fee_percent v.fee_percent;
  min_stake = or_else u.min_stake v.min_stake;
  max_duration = or_else u.max_duration v.max_duration;
  supported_tokens = or_else u.supported_tokens v.supported_tokens;
  contract_addresses = or_else u.contract_addresses v.contract_addresses;
}

-- What `ensureSingleton` creates, with the environment's fee and contracts.
abbrev pub default_settings : ℕ → Option String → Option String → PlatformSettings
default_settings fee contract oracle = record {
  fee_percent = fee;
  contract_id = contract;
  oracle_contract_id = oracle;
  min_stake = 0;
  max_duration = 86400;
  supported_tokens = [];
  contract_addresses = [];
  last_updated_by_tx_hash = none;
  last_updated_at_ledger = none;
}

module _ (cache : SettingsCache) where
  abbrev pub State : Type 0
  State = Settings cache.Table

  unfoldable pub read_row : Option PlatformSettings → State → ℕ → Option PlatformSettings × State
  read_row none s now = (none, s)
  read_row (some v) s now = (some v, record s { cached = cache.set s.cached now v 300000 })

  unfoldable pub read_cached : Option PlatformSettings → State → ℕ → Option PlatformSettings × State
  unfolding read_row
  read_cached (some v) s now = (some v, s)
  read_cached none s now = read_row s.row s now

  -- `none` where `findOneOrFail` throws.
  unfoldable pub get_settings : State → ℕ → Option PlatformSettings × State
  unfolding read_cached
  get_settings s now = read_cached (cache.get s.cached now) s now

  -- The end of both updates, told whether the database saves the row.
  unfoldable pub save_settings : Bool → State → PlatformSettings → Option PlatformSettings × State
  save_settings false s v = (none, s)
  save_settings true s v =
      (some v, record { row = some v; cached = cache.del s.cached; told = v.fee_percent ∷ s.told })

  unfoldable pub apply_found :
      Bool → AdminParamsChanged → Option PlatformSettings × State → Option PlatformSettings × State
  unfolding save_settings
  apply_found saves e (none, s) = (none, s)
  apply_found saves e (some v, s) = save_settings saves s (changed v e)

  unfoldable pub apply_admin_params_changed :
      State → ℕ → Bool → AdminParamsChanged → Option PlatformSettings × State
  unfolding get_settings apply_found
  apply_admin_params_changed s now saves e = apply_found saves e (get_settings s now)

  unfoldable pub update_found :
      Bool → UpdateConfig → Option PlatformSettings × State → Option PlatformSettings × State
  unfolding save_settings
  update_found saves u (none, s) = (none, s)
  update_found saves u (some v, s) = save_settings saves s (configured v u)

  unfoldable pub update_off_chain_settings :
      State → ℕ → Bool → UpdateConfig → Option PlatformSettings × State
  unfolding get_settings update_found
  update_off_chain_settings s now saves u = update_found saves u (get_settings s now)

  unfoldable pub ensure_row : Option PlatformSettings → State → PlatformSettings → State
  ensure_row (some v) s defaults = s
  ensure_row none s defaults = record s { row = some defaults }

  unfoldable pub ensure_singleton : State → PlatformSettings → State
  unfolding ensure_row
  ensure_singleton s defaults = ensure_row s.row s defaults
