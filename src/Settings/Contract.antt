-- ===== src/Settings/Contract.antt =====
-- packages/backend/src/config/config.service.ts with packages/backend/src/relay/relay.service.ts:
-- the relay reads the contract that it lets through from the settings.
use Prim.Native.String.{String}
use backit_on_stellar.Prelude.{
  ℕ, ◌≡◌, ◌≢◌, refl, sym, ap, ◌∙◌, Bool, true, false, List, [], ◌∷◌, Option, none, some, All, inl,
  inr,
}
use backit_on_stellar.Relay.{Sdk, World, FeeBump, Envelope, Answer, inner_of, sponsor_and_submit}
use backit_on_stellar.Relay.Guard.{Invokes}
use backit_on_stellar.Relay.Sponsored.{Relayed, relays_only_permitted}
use backit_on_stellar.Settings.{
  PlatformSettings, AdminParamsChanged, UpdateConfig, SettingsCache, State, changed, configured,
  get_settings, save_settings, apply_found, apply_admin_params_changed, update_found,
  update_off_chain_settings, ensure_row, ensure_singleton,
}
use backit_on_stellar.Settings.Coherent.{
  Op, reading, changing, configuring, booting, IsCache, IsCoherent, Reads, get_settings-Reads,
  step-IsCoherent, settings_current, after, after_all,
}

-- The contract that the relay gets from what `getSettings` gives.
abbrev pub contract_of : Option PlatformSettings → Option (Option String)
contract_of none = none
contract_of (some v) = some v.contract_id

-- The operation names no other contract.
abbrev pub Keeps : Op → Type 0
Keeps (changing now saves e) = e.contract_id ≡ none
Keeps (reading now) = Unit
Keeps (configuring now saves u) = Unit
Keeps (booting defaults) = Unit

-- What the relay does with a request sends nothing, or the client's transaction only invokes the
-- contract of the settings.
Relayed-Invokes :
    {V : Type 0}
    → (sdk : Sdk V) (w : World V) (xdr c : String) (env : Envelope V) (sent : List (FeeBump V))
      (r : Answer String × List (FeeBump V))
    → w.settings ≡ some (some c)
    → sdk.from_xdr xdr ≡ some env
    → Relayed sdk w xdr sent r
    → r.1 ≢ sent
    → All (Invokes sdk c) (inner_of env).operations
Relayed-Invokes sdk w xdr c env sent r target decoded (inl (why, e, same)) some_sent =
    elim (some_sent same) [ ]
Relayed-Invokes sdk w xdr c env sent r target decoded (inr (b, p, q, a)) some_sent =
    let targets : some (some p.allowed) ≡ some (some c) = sym p.target ∙ target in
    let envs : some p.env ≡ some env = sym p.decoded ∙ decoded in
    let same_target : p.allowed ≡ c = cc in
    let same_env : p.env ≡ env = cc in rw (← same_target, ← same_env) p.invocations

module _ (cache : SettingsCache) (laws : IsCache cache) where
  save-contract :
      (saves : Bool) (s : State cache) (v : PlatformSettings) (target : Option (Option String))
      → contract_of s.row ≡ target
      → contract_of (some v) ≡ target
      → contract_of (((save_settings cache saves s v).1).row) ≡ target
  unfolding save_settings
  save-contract false s v target old new = old
  save-contract true s v target old new = new

  found_change-contract :
      (saves : Bool) (e : AdminParamsChanged) (found : Option PlatformSettings) (s : State cache)
      → e.contract_id ≡ none
      → contract_of s.row ≡ contract_of found
      → contract_of (((apply_found cache saves e (found, s)).1).row) ≡ contract_of found
  unfolding apply_found
  found_change-contract saves e none s kept h = h
  found_change-contract saves e (some v) s kept h =
      save-contract saves s (changed v e) _ h (rw kept refl)

  found_update-contract :
      (saves : Bool) (u : UpdateConfig) (found : Option PlatformSettings) (s : State cache)
      → contract_of s.row ≡ contract_of found
      → contract_of (((update_found cache saves u (found, s)).1).row) ≡ contract_of found
  unfolding update_found
  found_update-contract saves u none s h = h
  found_update-contract saves u (some v) s h = save-contract saves s (configured v u) _ h refl

  row_made-contract :
      (row : Option PlatformSettings) (s : State cache) (defaults : PlatformSettings) (c : String)
      → s.row ≡ row
      → contract_of row ≡ some (some c)
      → contract_of ((ensure_row cache row s defaults).row) ≡ some (some c)
  unfolding ensure_row
  row_made-contract (some v) s defaults c e h = rw e h
  row_made-contract none s defaults c e h = cc

  step-contract :
      (s : State cache) (op : Op) (c : String)
      → IsCoherent cache laws s
      → Keeps op
      → contract_of s.row ≡ some (some c)
      → contract_of ((after cache laws s op).row) ≡ some (some c)
  unfolding apply_admin_params_changed update_off_chain_settings ensure_singleton
  step-contract s (reading now) c h kept t =
      ap contract_of ((get_settings-Reads cache laws s now h).1) ∙ t
  step-contract s (changing now saves e) c h kept t =
      let found = get_settings cache s now in
      let r : Reads cache laws s found = get_settings-Reads cache laws s now h in
      found_change-contract saves e found.0 found.1 kept (ap contract_of (r.1 ∙ sym r.0))
      ∙ ap contract_of r.0
      ∙ t
  step-contract s (configuring now saves u) c h kept t =
      let found = get_settings cache s now in
      let r : Reads cache laws s found = get_settings-Reads cache laws s now h in
      found_update-contract saves u found.0 found.1 (ap contract_of (r.1 ∙ sym r.0))
      ∙ ap contract_of r.0
      ∙ t
  step-contract s (booting defaults) c h kept t = row_made-contract s.row s defaults c refl t

  all-contract :
      (s : State cache) (ops : List Op) (c : String)
      → IsCoherent cache laws s
      → All Keeps ops
      → contract_of s.row ≡ some (some c)
      → contract_of ((after_all cache laws s ops).row) ≡ some (some c)
  all-contract s [] c h kept t = t
  all-contract s (op ∷ ops) c h kept t =
      all-contract (after cache laws s op) ops c (step-IsCoherent cache laws s op h) kept.1
        (step-contract s op c h kept.0 t)

  found-contract :
      (e : AdminParamsChanged) (v : PlatformSettings) (c : String) (found : Option PlatformSettings)
      (s : State cache)
      → found ≡ some v
      → e.contract_id ≡ some c
      → contract_of (((apply_found cache true e (found, s)).1).row) ≡ some (some c)
  unfolding apply_found save_settings
  found-contract e v c none s is_v named = cc
  found-contract e v c (some held) s is_v named = rw named refl

  change-contract :
      (s : State cache) (at : ℕ) (e : AdminParamsChanged) (v : PlatformSettings) (c : String)
      → IsCoherent cache laws s
      → s.row ≡ some v
      → e.contract_id ≡ some c
      → contract_of ((after cache laws s (changing at true e)).row) ≡ some (some c)
  unfolding apply_admin_params_changed
  change-contract s at e v c h stored named =
      let found = get_settings cache s at in
      let r : Reads cache laws s found = get_settings-Reads cache laws s at h in
      found-contract e v c found.0 found.1 (r.0 ∙ stored) named

  -- After an event that names a contract, and then any operations that name no other, what
  -- `getSettings` gives the relay is that contract.
  relay_target :
      (s : State cache) (at : ℕ) (e : AdminParamsChanged) (v : PlatformSettings) (c : String)
      (ops : List Op) (now : ℕ)
      → IsCoherent cache laws s
      → s.row ≡ some v
      → e.contract_id ≡ some c
      → All Keeps ops
      → contract_of ((get_settings cache (after_all cache laws s (changing at true e ∷ ops)) now).0)
        ≡ some (some c)
  relay_target s at e v c ops now h stored named kept =
      let first = changing at true e in
      ap contract_of (settings_current cache laws s (first ∷ ops) now h)
      ∙ all-contract (after cache laws s first) ops c (step-IsCoherent cache laws s first h) kept
          (change-contract s at e v c h stored named)

  -- The settings have a row. Once an event of an administrator names a contract and is saved, and as
  -- long as none names another, whatever else is read, updated or restarted, one after another: if
  -- the relay, with the settings that `getSettings` gives it, sends anything for a client's text, then
  -- every operation of the client's transaction invokes that contract.
  pub relays_only_named :
      {V : Type 0}
      → (sdk : Sdk V) (w : World V) (xdr : String) (env : Envelope V) (sent : List (FeeBump V))
        (s : State cache) (at : ℕ) (e : AdminParamsChanged) (v : PlatformSettings) (c : String)
        (ops : List Op) (now : ℕ)
      → IsCoherent cache laws s
      → s.row ≡ some v
      → e.contract_id ≡ some c
      → All Keeps ops
      → w.settings
        ≡ contract_of
            ((get_settings cache (after_all cache laws s (changing at true e ∷ ops)) now).0)
      → sdk.from_xdr xdr ≡ some env
      → (sponsor_and_submit sdk w xdr sent).1 ≢ sent
      → All (Invokes sdk c) (inner_of env).operations
  relays_only_named sdk w xdr env sent s at e v c ops now h stored named kept told decoded
        some_sent =
      Relayed-Invokes sdk w xdr c env sent (sponsor_and_submit sdk w xdr sent)
        (told ∙ relay_target s at e v c ops now h stored named kept) decoded
        (relays_only_permitted sdk w xdr sent) some_sent
