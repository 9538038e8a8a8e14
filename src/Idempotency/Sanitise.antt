-- ===== src/Idempotency/Sanitise.antt =====
-- `sanitise` and `complete` of packages/backend/src/idempotency/idempotency.service.ts: what is
-- kept of a response. `Object.entries` of an array gives its indices as keys.
use Prim.Native.String.{String}
use backit_on_stellar.Prelude.{
  ℕ, suc, ◌≡◌, refl, Bool, true, ◌||◌, ltb, if◌then◌else◌, inl, inr, Bool-cases,
}
use backit_on_stellar.Prelude.Text.{str_eq, units, index_key}
use backit_on_stellar.Prelude.Json.{
  Value, undefined, null, bool, num, str, arr, obj, Items, no_items, item, Fields, end, field,
}
use backit_on_stellar.Prelude.Repo.{Repo}
use backit_on_stellar.Idempotency.{ClaimKey, IdempotencyRecord, Service, complete_with}

-- SENSITIVE_KEYS.
unfoldable pub is_sensitive : String → Bool
is_sensitive k =
    str_eq k "xdr"
    || str_eq k "signature"
    || str_eq k "secret"
    || str_eq k "privateKey"
    || str_eq k "token"
    || str_eq k "password"
    || str_eq k "mnemonic"
    || str_eq k "seed"

abbrev pub redacted : Value
redacted = str (units "[REDACTED]")

abbrev pub entry : String → Value → Fields → Fields
entry k v rest = field k (if is_sensitive k then redacted else v) rest

-- The members of an object deeper than four levels are dropped.
abbrev pub cut : ℕ → Fields → Fields
cut depth fs = if ltb 4 depth then end else fs

-- The loop over the entries of an object at a depth, and the value that it writes for a member.
unfoldable mutual
  pub sanitise_member : ℕ → Value → Value
  sanitise_member depth undefined = undefined
  sanitise_member depth null = null
  sanitise_member depth (bool b) = bool b
  sanitise_member depth (num n) = num n
  sanitise_member depth (str s) = str s
  sanitise_member depth (obj fs) = obj (cut depth (sanitise_fields depth fs))
  sanitise_member depth (arr xs) = obj (cut depth (sanitise_items depth 0 xs))

  pub sanitise_fields : ℕ → Fields → Fields
  sanitise_fields depth end = end
  sanitise_fields depth (field k v fs) =
      entry k (sanitise_member (suc depth) v) (sanitise_fields depth fs)

  pub sanitise_items : ℕ → ℕ → Items → Fields
  sanitise_items depth i no_items = end
  sanitise_items depth i (item v xs) =
      entry (index_key i) (sanitise_member (suc depth) v) (sanitise_items depth (suc i) xs)

abbrev pub members : Value → Fields
members (obj fs) = fs
members _ = end

unfoldable pub sanitise : Value → Fields
sanitise value = members (sanitise_member 0 value)

-- `complete`.
unfoldable pub complete :
    (db : Repo ClaimKey IdempotencyRecord)
    → Service db.Table
    → ClaimKey
    → ℕ
    → Value
    → ℕ
    → Service db.Table
complete db s id status response now = complete_with db s id status (sanitise response) now

-- Every field with a sensitive name holds the marker, at every depth, and no array is left, whose
-- elements would have no names to judge by.
abbrev mutual
  pub Clean : Value → Type 0
  Clean (obj fs) = CleanFields fs
  Clean (arr xs) = ⊥
  Clean undefined = Unit
  Clean null = Unit
  Clean (bool b) = Unit
  Clean (num n) = Unit
  Clean (str s) = Unit

  pub CleanFields : Fields → Type 0
  CleanFields end = Unit
  CleanFields (field k v fs) = (is_sensitive k ≡ true → v ≡ redacted) × Clean v × CleanFields fs

Clean-entry :
    (k : String) (v : Value) (fs : Fields) → Clean v → CleanFields fs → CleanFields (entry k v fs)
Clean-entry k v fs h r = elim (Bool-cases (is_sensitive k)) [
  | inl e ↦ rw e ((λ _. refl), tt, r)
  | inr e ↦ rw e ((λ t. cc), h, r)
]

Clean-cut : (depth : ℕ) (fs : Fields) → CleanFields fs → CleanFields (cut depth fs)
Clean-cut depth fs h = elim (Bool-cases (ltb 4 depth)) [ inl e ↦ rw e tt | inr e ↦ rw e h ]

mutual
  unfolding sanitise_member

  member-Clean : (depth : ℕ) (v : Value) → Clean (sanitise_member depth v)
  member-Clean depth undefined = tt
  member-Clean depth null = tt
  member-Clean depth (bool b) = tt
  member-Clean depth (num n) = tt
  member-Clean depth (str s) = tt
  member-Clean depth (obj fs) = Clean-cut depth _ (fields-Clean depth fs)
  member-Clean depth (arr xs) = Clean-cut depth _ (items-Clean depth 0 xs)

  fields-Clean : (depth : ℕ) (fs : Fields) → CleanFields (sanitise_fields depth fs)
  fields-Clean depth end = tt
  fields-Clean depth (field k v fs) =
      Clean-entry k _ _ (member-Clean (suc depth) v) (fields-Clean depth fs)

  items-Clean : (depth i : ℕ) (xs : Items) → CleanFields (sanitise_items depth i xs)
  items-Clean depth i no_items = tt
  items-Clean depth i (item v xs) =
      Clean-entry (index_key i) _ _ (member-Clean (suc depth) v) (items-Clean depth (suc i) xs)

members-Clean : (v : Value) → Clean v → CleanFields (members v)
members-Clean (obj fs) h = h
members-Clean (arr xs) h = tt
members-Clean undefined h = tt
members-Clean null h = tt
members-Clean (bool b) h = tt
members-Clean (num n) h = tt
members-Clean (str s) h = tt

-- Whatever the handler returned, what is kept for replays holds the marker in place of the value of
-- every field with a sensitive name, at every depth, and holds no array.
pub sanitise-CleanFields : (value : Value) → CleanFields (sanitise value)
unfolding sanitise
sanitise-CleanFields value = members-Clean _ (member-Clean 0 value)

entry_again :
    (depth : ℕ) (k : String) (v : Value) (fs : Fields)
    → sanitise_member (suc depth) v ≡ v
    → sanitise_fields depth fs ≡ fs
    → sanitise_fields depth (entry k v fs) ≡ entry k v fs
unfolding sanitise_member
entry_again depth k v fs h r = elim (Bool-cases (is_sensitive k)) [
  | inl e ↦ rw (e, r)
  | inr e ↦ rw (e, h, r)
]

cut_again :
    (depth : ℕ) (fs : Fields)
    → sanitise_fields depth fs ≡ fs
    → sanitise_member depth (obj (cut depth fs)) ≡ obj (cut depth fs)
unfolding sanitise_member
cut_again depth fs h = elim (Bool-cases (ltb 4 depth)) [ inl e ↦ rw e | inr e ↦ rw (e, h) ]

mutual
  unfolding sanitise_member

  member_again :
      (depth : ℕ) (v : Value)
      → sanitise_member depth (sanitise_member depth v) ≡ sanitise_member depth v
  member_again depth undefined = refl
  member_again depth null = refl
  member_again depth (bool b) = refl
  member_again depth (num n) = refl
  member_again depth (str s) = refl
  member_again depth (obj fs) = cut_again depth _ (fields_again depth fs)
  member_again depth (arr xs) = cut_again depth _ (items_again depth 0 xs)

  fields_again :
      (depth : ℕ) (fs : Fields)
      → sanitise_fields depth (sanitise_fields depth fs) ≡ sanitise_fields depth fs
  fields_again depth end = refl
  fields_again depth (field k v fs) =
      entry_again depth k _ _ (member_again (suc depth) v) (fields_again depth fs)

  items_again :
      (depth i : ℕ) (xs : Items)
      → sanitise_fields depth (sanitise_items depth i xs) ≡ sanitise_items depth i xs
  items_again depth i no_items = refl
  items_again depth i (item v xs) =
      entry_again depth (index_key i) _ _ (member_again (suc depth) v)
        (items_again depth (suc i) xs)

-- A kept response is a fixed point: to keep it once more changes nothing.
pub sanitise_idempotent : (value : Value) → sanitise (obj (sanitise value)) ≡ sanitise value
unfolding sanitise sanitise_member
sanitise_idempotent (obj fs) = fields_again 0 fs
sanitise_idempotent (arr xs) = items_again 0 0 xs
sanitise_idempotent undefined = refl
sanitise_idempotent null = refl
sanitise_idempotent (bool b) = refl
sanitise_idempotent (num n) = refl
sanitise_idempotent (str s) = refl
