-- ===== src/Reconciliation.antt =====
-- packages/backend/src/reconciliation: the events of the chain compared with the tables, one event at
-- a time (reconcileEvent and its four cases in reconciliation.service.ts). Calls are
-- calls/entities/call.entity.ts, stakes stakes/entities/stake.entity.ts, claims those of Payouts.
pub mod Events
pub mod Run
pub mod Execute
pub mod DryRun
pub mod Counts
pub mod Lock
pub mod Repairs
mod Tests
use Prim.Native.String
use Prim.Native.String.{String}
use backit_on_stellar.Prelude.{
  ℕ, zero, suc, Bool, true, false, not, List, [], ◌∷◌, Option, none, some, or_else, ◌||◌, ◌&&◌,
  if◌then◌else◌,
}
use backit_on_stellar.Prelude.Text.{str_eq}
use backit_on_stellar.Prelude.Repo.{Repo}
use backit_on_stellar.Payouts.{Staker, PayoutClaim, PayoutClaimStatus, pending, paid, failed}

pub data CallStatus : Type 0 where
  draft opened paused settling resolved_yes resolved_no : CallStatus

pub record Call : Type 0 where
  pub title : String
  pub description : Option String
  pub creator_address : String
  pub status : CallStatus
  pub resolved_at : Option ℕ
  pub total_yes_stake : String
  pub total_no_stake : String

-- The members of an event's data that the service reads, as the text that `String` gives; one that is
-- missing, null or undefined is none. The title, the description and the creator, which are used as
-- they are, are taken to be texts.
pub record EventData : Type 0 where
  pub call_id : Option String
  pub market_id : Option String
  pub title : Option String
  pub description : Option String
  pub creator_address : Option String
  pub creator : Option String
  pub user_address : Option String
  pub staker : Option String
  pub staker_address : Option String
  pub amount : Option String
  pub outcome : Option String
  pub result : Option String

-- `ParsedOnChainEvent`; its `stableIdentity` is made of the contract, the ledger, the transaction and
-- the index.
pub record ChainEvent : Type 0 where
  pub contract_id : String
  pub ledger : ℕ
  pub tx_hash : String
  pub event_index : ℕ
  pub event_name : String
  pub event_data : EventData

pub data DiscrepancyType : Type 0 where
  missing_offchain duplicate_offchain value_mismatch unknown_contract unrecoverable :
      DiscrepancyType

pub data DiscrepancyStatus : Type 0 where
  detected repaired quarantined ignored : DiscrepancyStatus

-- What `reconcileEvent` finds, without the details and notes for the operator.
pub record Discrepancy : Type 0 where
  pub type : DiscrepancyType
  pub status : DiscrepancyStatus

-- The tables of calls, stakes and claims. The stakes of a call and a user are looked up together,
-- each with its amount.
pub record Tables (C S P : Type 0) : Type 0 where
  pub calls : C
  pub stakes : S
  pub claims : P

abbrev pub found : DiscrepancyType → DiscrepancyStatus → Option Discrepancy
found type status = some (record { type = type; status = status })

-- `a ?? b`.
abbrev pub coalesce : Option String → Option String → Option String
coalesce none b = b
coalesce (some a) b = some a

-- `slice(0, n)` of an ASCII text.
unfoldable pub slice : ℕ → String → String
slice zero text = ""
slice (suc n) String.[] = ""
slice (suc n) (String.◌∷◌ c rest) = String.◌∷◌ c (slice n rest)

-- The status of a discrepancy that is not repaired.
abbrev pub detected_or_quarantined : Bool → DiscrepancyStatus
detected_or_quarantined true = detected
detected_or_quarantined false = quarantined

-- The cases of `reconcileEvent`.
pub data Kind : Type 0 where
  call_created stake_added call_resolved payout_claimed other_event : Kind

unfoldable pub kind_of : String → Kind
kind_of name =
    if str_eq name "MarketCreated" || str_eq name "call_created"
    then call_created
    else if str_eq name "BetPlaced" || str_eq name "stake_added"
    then stake_added
    else if str_eq name "OutcomeFinalized"
        || (str_eq name "call_resolved" || str_eq name "call_settled")
    then call_resolved
    else if str_eq name "PayoutClaimed"
    then payout_claimed
    else other_event

unfoldable pub same_status : CallStatus → CallStatus → Bool
same_status draft draft = true
same_status opened opened = true
same_status paused paused = true
same_status settling settling = true
same_status resolved_yes resolved_yes = true
same_status resolved_no resolved_no = true
same_status _ _ = false

-- `expectedStatus` of an outcome in upper case.
unfoldable pub expected_status : String → CallStatus
expected_status outcome =
    if str_eq outcome "YES" || (str_eq outcome "1" || str_eq outcome "TRUE")
    then resolved_yes
    else resolved_no

unfoldable pub is_claimed : PayoutClaimStatus → Bool
is_claimed paid = true
is_claimed pending = false
is_claimed failed = false

-- The call that an event says was created.
unfoldable pub call_id_of : ChainEvent → String
call_id_of e = or_else (coalesce e.event_data.call_id e.event_data.market_id) e.tx_hash

unfoldable pub creator_of : ChainEvent → String
creator_of e = or_else (coalesce e.event_data.creator_address e.event_data.creator) "SYSTEM"

-- What the repair of a missing call inserts.
unfoldable pub new_call : ChainEvent → Call
unfolding slice call_id_of creator_of
new_call e = record {
  title = or_else e.event_data.title (String.◌++◌ "Call " (slice 8 (call_id_of e)));
  description = e.event_data.description;
  creator_address = creator_of e;
  status = opened;
  resolved_at = none;
  total_yes_stake = "0";
  total_no_stake = "0";
}

-- The call that an event on stakes or on a resolution is about.
unfoldable pub market_of : ChainEvent → String
market_of e = or_else (coalesce e.event_data.call_id e.event_data.market_id) ""

unfoldable pub user_of : ChainEvent → String
user_of e = or_else (coalesce e.event_data.user_address e.event_data.staker) ""

-- The claim that a payout is about.
unfoldable pub claimant_of : ChainEvent → Staker
claimant_of e = record {
  call_id = or_else e.event_data.call_id "";
  staker_address = or_else (coalesce e.event_data.staker_address e.event_data.staker) "";
}

unfoldable pub paid_claim : ChainEvent → Staker → ℕ → PayoutClaim
paid_claim e k now = record {
  staker = k;
  amount = or_else e.event_data.amount "0";
  tx_hash = some e.tx_hash;
  claimed_at = some now;
  status = paid;
  created_at = now;
}

-- `callRepo.find`: the rows with an id, of which a primary key lets there be one.
abbrev pub rows_of : Option Call → List Call
rows_of none = []
rows_of (some c) = c ∷ []
