-- ===== src/Settings/Coherent.antt =====
-- That the cache of packages/backend/src/config/config.service.ts never hides a change.
use backit_on_stellar.Prelude.{
  ℕ, ◌≡◌, refl, sym, Bool, true, false, List, [], ◌∷◌, Option, none, some,
}
use backit_on_stellar.Settings.{
  PlatformSettings, AdminParamsChanged, UpdateConfig, SettingsCache, State, changed, configured,
  read_row, read_cached, get_settings, save_settings, apply_found, apply_admin_params_changed,
  update_found, update_off_chain_settings, ensure_row, ensure_singleton,
}

-- What is cached, if anything, is this row.
abbrev pub Caches : Option PlatformSettings → Option PlatformSettings → Type 0
Caches row none = Unit
Caches row (some v) = row ≡ some v

no_row-Caches :
    (v : PlatformSettings) (held : Option PlatformSettings)
    → Caches none held
    → Caches (some v) held
no_row-Caches v none e = tt
no_row-Caches v (some old) e = let f : none ≡ some old = e in cc

-- The cache gives what was stored last, or nothing, and nothing after a deletion.
pub record IsCache (cache : SettingsCache) : Type 0 where
  pub after_set :
      (t : cache.Table) (at : ℕ) (v : PlatformSettings) (ttl now : ℕ)
      → Caches (some v) (cache.get (cache.set t at v ttl) now)
  pub after_del : (t : cache.Table) (now : ℕ) → cache.get (cache.del t) now ≡ none

-- What happens to the settings.
pub data Op : Type 0 where
  reading : ℕ → Op
  changing : ℕ → Bool → AdminParamsChanged → Op
  configuring : ℕ → Bool → UpdateConfig → Op
  booting : PlatformSettings → Op

module _ (cache : SettingsCache) (laws : IsCache cache) where
  abbrev pub IsCoherent : State cache → Type 0
  IsCoherent s = (now : ℕ) → Caches s.row (cache.get s.cached now)

  -- A reading gives the row, and changes it as little as it breaks the invariant.
  abbrev pub Reads : State cache → Option PlatformSettings × State cache → Type 0
  Reads s (v, s') = (v ≡ s.row) × (s'.row ≡ s.row) × IsCoherent s'

  row-Reads :
      (row : Option PlatformSettings) (s : State cache) (now : ℕ)
      → s.row ≡ row
      → IsCoherent s
      → Reads s (read_row cache row s now)
  unfolding read_row
  row-Reads none s now e h = rw e (refl, refl, λ t. rw (← e) (h t))
  row-Reads (some v) s now e h = (sym e, refl, λ t. rw e (laws.after_set s.cached now v 300000 t))

  cached-Reads :
      (held : Option PlatformSettings) (s : State cache) (now : ℕ)
      → Caches s.row held
      → IsCoherent s
      → Reads s (read_cached cache held s now)
  unfolding read_cached
  cached-Reads none s now e h = row-Reads s.row s now refl h
  cached-Reads (some v) s now e h = (sym e, refl, h)

  pub get_settings-Reads :
      (s : State cache) (now : ℕ) → IsCoherent s → Reads s (get_settings cache s now)
  unfolding get_settings
  get_settings-Reads s now h = cached-Reads (cache.get s.cached now) s now (h now) h

  save-IsCoherent :
      (saves : Bool) (s : State cache) (v : PlatformSettings)
      → IsCoherent s
      → IsCoherent ((save_settings cache saves s v).1)
  unfolding save_settings
  save-IsCoherent false s v h = h
  save-IsCoherent true s v h = λ now. rw (laws.after_del s.cached now) tt

  found_change-IsCoherent :
      (saves : Bool) (e : AdminParamsChanged) (found : Option PlatformSettings) (s : State cache)
      → IsCoherent s
      → IsCoherent ((apply_found cache saves e (found, s)).1)
  unfolding apply_found
  found_change-IsCoherent saves e none s h = h
  found_change-IsCoherent saves e (some v) s h = save-IsCoherent saves s (changed v e) h

  found_update-IsCoherent :
      (saves : Bool) (u : UpdateConfig) (found : Option PlatformSettings) (s : State cache)
      → IsCoherent s
      → IsCoherent ((update_found cache saves u (found, s)).1)
  unfolding update_found
  found_update-IsCoherent saves u none s h = h
  found_update-IsCoherent saves u (some v) s h = save-IsCoherent saves s (configured v u) h

  row_made-IsCoherent :
      (row : Option PlatformSettings) (s : State cache) (defaults : PlatformSettings)
      → s.row ≡ row
      → ((now : ℕ) → Caches row (cache.get s.cached now))
      → IsCoherent (ensure_row cache row s defaults)
  unfolding ensure_row
  row_made-IsCoherent (some v) s defaults e h = λ now. rw e (h now)
  row_made-IsCoherent none s defaults e h =
      λ now. no_row-Caches defaults (cache.get s.cached now) (h now)

  abbrev pub after : State cache → Op → State cache
  after s (reading now) = (get_settings cache s now).1
  after s (changing now saves e) = (apply_admin_params_changed cache s now saves e).1
  after s (configuring now saves u) = (update_off_chain_settings cache s now saves u).1
  after s (booting defaults) = ensure_singleton cache s defaults

  abbrev pub after_all : State cache → List Op → State cache
  after_all s [] = s
  after_all s (op ∷ ops) = after_all (after s op) ops

  pub step-IsCoherent : (s : State cache) (op : Op) → IsCoherent s → IsCoherent (after s op)
  unfolding apply_admin_params_changed update_off_chain_settings ensure_singleton
  step-IsCoherent s (reading now) h = (get_settings-Reads s now h).2
  step-IsCoherent s (changing now saves e) h =
      let found = get_settings cache s now in
      found_change-IsCoherent saves e found.0 found.1 ((get_settings-Reads s now h).2)
  step-IsCoherent s (configuring now saves u) h =
      let found = get_settings cache s now in
      found_update-IsCoherent saves u found.0 found.1 ((get_settings-Reads s now h).2)
  step-IsCoherent s (booting defaults) h = row_made-IsCoherent s.row s defaults refl h

  pub all-IsCoherent :
      (s : State cache) (ops : List Op) → IsCoherent s → IsCoherent (after_all s ops)
  all-IsCoherent s [] h = h
  all-IsCoherent s (op ∷ ops) h = all-IsCoherent (after s op) ops (step-IsCoherent s op h)

  -- From a state whose cache holds nothing else than the row, after any readings, changes from the
  -- chain and updates by an administrator (whether the database saves them or not) and restarts,
  -- run one after another, `getSettings` gives the row of the database, at any time.
  pub settings_current :
      (s : State cache) (ops : List Op) (now : ℕ)
      → IsCoherent s
      → (get_settings cache (after_all s ops) now).0 ≡ (after_all s ops).row
  settings_current s ops now h =
      (get_settings-Reads (after_all s ops) now (all-IsCoherent s ops h)).0
