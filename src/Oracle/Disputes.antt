-- ===== src/Oracle/Disputes.antt =====
-- packages/backend/src/oracle/dispute-resolution.service.ts: disputes in a map of the process.
use Prim.Native.String.{String}
use backit_on_stellar.Prelude.{ℕ, ◌≡◌, ◌≢◌, refl, sym, ap, ◌∙◌, List, [], ◌∷◌, Option, none, some}
use backit_on_stellar.Prelude.Repo.{Repo}

pub data DisputeStatus : Type 0 where
  pending_dispute resolved_dispute rejected_dispute : DisputeStatus

pub record Dispute : Type 0 where
  pub claim_id : String
  pub challenger : String
  pub defendant : String
  pub reason : String
  pub status : DisputeStatus
  pub created_at : ℕ
  pub resolved_at : Option ℕ
  pub resolution : Option String

pub data Decision : Type 0 where
  resolving rejecting : String → String → ℕ → Decision

module _ (db : Repo String Dispute) where
  -- The id is made of the time and of a random number.
  unfoldable pub create_dispute :
      db.Table → String → String → String → String → String → ℕ → Dispute × db.Table
  create_dispute t id claim_id challenger defendant reason now =
      let d : Dispute = record {
        claim_id = claim_id;
        challenger = challenger;
        defendant = defendant;
        reason = reason;
        status = pending_dispute;
        created_at = now;
        resolved_at = none;
        resolution = none;
      } in
      (d, db.save t id d)

  -- A decision, which a dispute that is no longer pending ignores.
  unfoldable pub decide_pending :
      DisputeStatus
      → DisputeStatus
      → db.Table
      → String
      → Dispute
      → String
      → ℕ
      → Option Dispute × db.Table
  decide_pending pending_dispute to t id d text now =
      let d' : Dispute = record d { status = to; resolved_at = some now; resolution = some text } in
      (some d', db.save t id d')
  decide_pending resolved_dispute to t id d text now = (some d, t)
  decide_pending rejected_dispute to t id d text now = (some d, t)

  unfoldable pub decide_found :
      Option Dispute → DisputeStatus → db.Table → String → String → ℕ → Option Dispute × db.Table
  unfolding decide_pending
  decide_found none to t id text now = (none, t)
  decide_found (some d) to t id text now = decide_pending d.status to t id d text now

  unfoldable pub resolve_dispute : db.Table → String → String → ℕ → Option Dispute × db.Table
  unfolding decide_found
  resolve_dispute t id resolution now =
      decide_found (db.find_one t id) resolved_dispute t id resolution now

  unfoldable pub reject_dispute : db.Table → String → String → ℕ → Option Dispute × db.Table
  unfolding decide_found
  reject_dispute t id reason now = decide_found (db.find_one t id) rejected_dispute t id reason now

  abbrev pub decide : db.Table → Decision → db.Table
  decide t (resolving id text now) = (resolve_dispute t id text now).1
  decide t (rejecting id text now) = (reject_dispute t id text now).1

  abbrev pub decide_all : db.Table → List Decision → db.Table
  decide_all t [] = t
  decide_all t (x ∷ xs) = decide_all (decide t x) xs

  -- A decision on one dispute leaves the others and the decided ones as they are.
  decide_pending_row :
      (t : db.Table) (st to : DisputeStatus) (j id text : String) (now : ℕ) (d e : Dispute)
      → db.find_one t id ≡ some d
      → (st ≡ pending_dispute → j ≢ id)
      → db.find_one (decide_pending st to t j e text now).1 id ≡ some d
  unfolding decide_pending
  decide_pending_row t pending_dispute to j id text now d e h n =
      db.find_one-save_ne _ _ _ _ (n refl) ∙ h
  decide_pending_row t resolved_dispute to j id text now d e h n = h
  decide_pending_row t rejected_dispute to j id text now d e h n = h

  decide_found_row :
      (t : db.Table) (o : Option Dispute) (to : DisputeStatus) (j id text : String) (now : ℕ)
      (d : Dispute)
      → db.find_one t id ≡ some d
      → d.status ≢ pending_dispute
      → db.find_one t j ≡ o
      → db.find_one (decide_found o to t j text now).1 id ≡ some d
  unfolding decide_found
  decide_found_row t none to j id text now d h n g = h
  decide_found_row t (some e) to j id text now d h n g =
      decide_pending_row t e.status to j id text now d e h (λ p q.
        let r : some e ≡ some d = sym g ∙ rw q h in
        let same : e ≡ d = cc in n (ap (λ x. x.status) (sym same) ∙ p))

  -- Once a dispute is resolved or rejected, no later decision, on it or on others, changes it.
  pub decided_stays :
      (t : db.Table) (xs : List Decision) (id : String) (d : Dispute)
      → db.find_one t id ≡ some d
      → d.status ≢ pending_dispute
      → db.find_one (decide_all t xs) id ≡ some d
  unfolding resolve_dispute reject_dispute
  decided_stays t [] id d h n = h
  decided_stays t (resolving j text now ∷ xs) id d h n =
      decided_stays (decide t (resolving j text now)) xs id d
        (decide_found_row t _ resolved_dispute j id text now d h n refl) n
  decided_stays t (rejecting j text now ∷ xs) id d h n =
      decided_stays (decide t (rejecting j text now)) xs id d
        (decide_found_row t _ rejected_dispute j id text now d h n refl) n
