-- ===== src/Settings/Tests.antt =====
-- Tests of the settings, with a cache that keeps one value until its time is over.
use backit_on_stellar.Prelude.{
  ℕ, ◌+◌, ltb, if◌then◌else◌, ◌≡◌, ◌≢◌, refl, sym, ap, ◌∙◌, arith, length, true, Bool-cases, inl,
  inr, List, [], ◌∷◌, Option, none, some, All,
}
use backit_on_stellar.Relay.{
  Transaction, FeeBump, regular, Sdk, World, inner_of, sponsor_and_submit, invoke_contract,
  contract_address, text, accepted,
}
use backit_on_stellar.Relay.Guard.{Invokes}
use backit_on_stellar.Settings.{
  PlatformSettings, AdminParamsChanged, UpdateConfig, SettingsCache, State, default_settings,
  read_row, get_settings, apply_admin_params_changed, update_off_chain_settings, ensure_singleton,
}
use backit_on_stellar.Settings.Coherent.{
  Op, reading, changing, configuring, booting, Caches, IsCache, IsCoherent, after_all,
  settings_current,
}
use backit_on_stellar.Settings.Contract.{contract_of, relays_only_named}

abbrev Held : Type 0
Held = Option (PlatformSettings × ℕ)

unfoldable lookup : Held → ℕ → Option PlatformSettings
lookup none now = none
lookup (some (v, until)) now = if ltb now until then some v else none

abbrev one_value : SettingsCache
one_value = record {
  Table = Held;
  get = lookup;
  set = λ t at v ttl. some (v, at + ttl);
  del = λ t. none;
}

lookup-Caches :
    (v : PlatformSettings) (until now : ℕ) → Caches (some v) (lookup (some (v, until)) now)
unfolding lookup
lookup-Caches v until now = elim (Bool-cases (ltb now until)) [
  | inl e ↦ rw e refl
  | inr e ↦ rw e tt
]

one_value-IsCache : IsCache one_value
unfolding lookup
one_value-IsCache = record {
  after_set = λ t at v ttl now. lookup-Caches v (at + ttl) now;
  after_del = λ t now. refl;
}

-- The platform before and after an event that names "C" in place of "B".
abbrev before : PlatformSettings
before = default_settings 100 (some "B") none

abbrev to_c : AdminParamsChanged
to_c = record {
  fee_percent = none;
  contract_id = some "C";
  oracle_contract_id = none;
  tx_hash = "tx";
  ledger = 7;
}

abbrev fee_only : AdminParamsChanged
fee_only = record to_c { fee_percent = some 250; contract_id = none }

abbrev shorter : UpdateConfig
shorter = record {
  fee_percent = none;
  min_stake = none;
  max_duration = some 3600;
  supported_tokens = none;
  contract_addresses = none;
}

abbrev start : State one_value
start = record { row = some before; cached = some (before, 300000); told = [] }

start-IsCoherent : IsCoherent one_value one_value-IsCache start
start-IsCoherent now = lookup-Caches before 300000 now

abbrev later_ops : List Op
later_ops =
    reading 20 ∷ changing 30 true fee_only ∷ configuring 40 true shorter ∷ booting before ∷ []

abbrev all_ops : List Op
all_ops = changing 10 true to_c ∷ later_ops

settings_current_example :
    (get_settings one_value (after_all one_value one_value-IsCache start all_ops) 50).0
    ≡ (after_all one_value one_value-IsCache start all_ops).row
settings_current_example =
    settings_current one_value one_value-IsCache start all_ops 50 start-IsCoherent

abbrev kept : PlatformSettings
kept = record before {
  fee_percent = 250;
  contract_id = some "C";
  max_duration = 3600;
  last_updated_by_tx_hash = some "tx";
  last_updated_at_ledger = some 7;
}

reads_changes :
    (get_settings one_value (after_all one_value one_value-IsCache start all_ops) 50).0 ≡ some kept
unfolding get_settings apply_admin_params_changed update_off_chain_settings ensure_singleton lookup
reads_changes = refl

abbrev stake_tx : Transaction ℕ
stake_tx = record {
  operations =
      record {
        type = "invokeHostFunction";
        func = some (
            invoke_contract (record {
              contract = contract_address (1 ∷ []);
              function_name = text "stake_on_call";
              args = [];
            }));
        source = none;
      }
      ∷ [];
  signatures = "user" ∷ [];
  time_bounds = none;
  fee = 100;
  source = "G";
}

abbrev sdk : Sdk ℕ
sdk = record {
  from_xdr = λ xdr. some (regular stake_tx);
  encode_contract = λ bytes. "C";
  build_fee_bump =
      λ wallet fee tx. some (record { inner = tx; fee_source = wallet; fee = fee; signed_by = [] });
  parse_int = λ time. 0;
}

abbrev world : World ℕ
world = record {
  hot_wallet = some "W";
  settings =
      contract_of
        ((get_settings one_value (after_all one_value one_value-IsCache start all_ops) 50).0);
  now = 1000000;
  send_transaction = λ bump. accepted "hash";
}

abbrev no_bumps : List (FeeBump ℕ)
no_bumps = []

sends_one : length ((sponsor_and_submit sdk world "tx" no_bumps).1) ≡ 1
unfolding sponsor_and_submit get_settings apply_admin_params_changed update_off_chain_settings
    ensure_singleton lookup
sends_one = refl

sends_some : (sponsor_and_submit sdk world "tx" no_bumps).1 ≢ no_bumps
sends_some e = let one : 1 ≡ length no_bumps = sym sends_one ∙ ap length e in omega (arith, one)

relays_only_named_example : All (Invokes sdk "C") (inner_of (regular stake_tx)).operations
relays_only_named_example =
    relays_only_named one_value one_value-IsCache sdk world "tx" (regular stake_tx) no_bumps start
      10 to_c before "C" later_ops 50 start-IsCoherent refl refl (tt, (refl, (tt, (tt, tt)))) refl
      refl sends_some

abbrev cold : State one_value
cold = record { row = some before; cached = none; told = [] }

-- A reading that found the row before a change, and stores it after the change: the row names "C",
-- and a later reading gives the settings that name "B".
late_reading_hides_change :
    let changed_state = (apply_admin_params_changed one_value cold 10 true to_c).1 in
    let late = (read_row one_value (some before) changed_state 20).1 in
    (contract_of late.row ≡ some (some "C"))
    × (contract_of ((get_settings one_value late 30).0) ≡ some (some "B"))
unfolding get_settings apply_admin_params_changed read_row lookup
late_reading_hides_change = (refl, refl)
