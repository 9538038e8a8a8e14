-- ===== src/Relay/Sponsored.antt =====
-- sponsorAndSubmit of packages/backend/src/relay/relay.service.ts against its specification.
use Prim.Native.String.{String}
use backit_on_stellar.Prelude.{
  ◌/◌, ◌≡◌, ◌≢◌, ◌⊎◌, inl, inr, refl, ap, List, [], ◌∷◌, Option, none, some, All,
}
use backit_on_stellar.Prelude.Text.{str_eq_iff}
use backit_on_stellar.Relay.{
  Transaction, FeeBump, Envelope, regular, fee_bump, Refusal, Answer, ok, refused, Sdk, World,
  validate_transaction, inner_of, sign, sign_built, sponsored_bump, prepare_envelope,
  prepare_decoded, prepare, answer_of, submit, sponsor_and_submit,
}
use backit_on_stellar.Relay.Guard.{
  then-eq-ok, guard-eq-ok, unequal_iff, check_some_iff, is_signed_iff, check_times_iff, Invokes,
  Sponsors, Permitted,
}

module _ {V : Type 0} (sdk : Sdk V) where
  abbrev Validated : Option (Option String) → Transaction V → Type 0
  Validated settings tx =
      (allowed : String) × (settings ≡ some (some allowed))
      × (allowed ≢ "")
      × (tx.operations ≢ [])
      × All (Invokes sdk allowed) tx.operations

  validate-ok :
      (settings : Option (Option String)) (tx : Transaction V)
      → validate_transaction sdk settings tx ≡ ok tt
      → Validated settings tx
  unfolding validate_transaction
  validate-ok none tx h = cc
  validate-ok (some none) tx h = cc
  validate-ok (some (some allowed)) tx h =
      let (a, b) = then-eq-ok _ _ h in
      let ops = (check_some_iff sdk allowed tx.operations).0 b in
      (allowed, refl, (unequal_iff allowed "").0 (guard-eq-ok _ _ a), ops.0, ops.1)

  ok-validate :
      (allowed : String) (tx : Transaction V)
      → allowed ≢ ""
      → tx.operations ≢ []
      → All (Invokes sdk allowed) tx.operations
      → validate_transaction sdk (some (some allowed)) tx ≡ ok tt
  unfolding validate_transaction
  ok-validate allowed tx given some_op ops =
      rw ((unequal_iff allowed "").1 given)
        ((check_some_iff sdk allowed tx.operations).1 (some_op, ops))

  sign_built-ok :
      (wallet : String) (m : Option (FeeBump V)) {b : FeeBump V}
      → sign_built wallet m ≡ ok b
      → (bump : FeeBump V) × (m ≡ some bump) × (sign wallet bump ≡ b)
  sign_built-ok wallet none h = cc
  sign_built-ok wallet (some bump) h = (bump, refl, cc)

  sponsored_bump-ok :
      (wallet : String) (env : Envelope V) {b : FeeBump V}
      → sponsored_bump sdk wallet env ≡ ok b
      → Sponsors sdk wallet env b
  unfolding sponsored_bump
  sponsored_bump-ok wallet (fee_bump bump) h =
      let (a, b) = then-eq-ok _ _ h in
      ((str_eq_iff bump.fee_source wallet).0 (guard-eq-ok _ _ a), cc)
  sponsored_bump-ok wallet (regular tx) h = sign_built-ok wallet _ h

  ok-sponsored_bump :
      (wallet : String) (env : Envelope V) {b : FeeBump V}
      → Sponsors sdk wallet env b
      → sponsored_bump sdk wallet env ≡ ok b
  unfolding sponsored_bump
  ok-sponsored_bump wallet (fee_bump bump) h =
      rw ((str_eq_iff bump.fee_source wallet).1 h.0) (ap ok h.1)
  ok-sponsored_bump wallet (regular tx) h = rw h.1 (ap ok h.2)

  envelope-Permitted :
      (w : World V) (wallet xdr : String) (env : Envelope V) {b : FeeBump V}
      → w.hot_wallet ≡ some wallet
      → sdk.from_xdr xdr ≡ some env
      → prepare_envelope sdk w wallet env ≡ ok b
      → Permitted sdk w xdr b
  unfolding prepare_envelope
  envelope-Permitted w wallet xdr env configured decoded h =
      let (valid, h2) = then-eq-ok _ _ h in
      let (signed, h3) = then-eq-ok _ _ h2 in
      let (timely, last) = then-eq-ok _ _ h3 in
      let (allowed, target, given, some_op, ops) = validate-ok w.settings (inner_of env) valid in
      record {
        wallet = wallet;
        allowed = allowed;
        env = env;
        configured = configured;
        decoded = decoded;
        target = target;
        target_given = given;
        some_operation = some_op;
        invocations = ops;
        signed = (is_signed_iff _).0 (guard-eq-ok _ _ signed);
        timely = (check_times_iff sdk _ _).0 timely;
        sponsored = sponsored_bump-ok wallet env last;
      }

  decoded-Permitted :
      (w : World V) (wallet xdr : String) (m : Option (Envelope V)) {b : FeeBump V}
      → w.hot_wallet ≡ some wallet
      → sdk.from_xdr xdr ≡ m
      → prepare_decoded sdk w wallet m ≡ ok b
      → Permitted sdk w xdr b
  unfolding prepare_decoded
  decoded-Permitted w wallet xdr none configured decoded h = cc
  decoded-Permitted w wallet xdr (some env) configured decoded h =
      envelope-Permitted w wallet xdr env configured decoded h

  prepare-Permitted :
      (w : World V) (wallet : Option String) (xdr : String) {b : FeeBump V}
      → w.hot_wallet ≡ wallet
      → prepare sdk w wallet xdr ≡ ok b
      → Permitted sdk w xdr b
  unfolding prepare
  prepare-Permitted w none xdr e h = cc
  prepare-Permitted w (some wallet) xdr e h = decoded-Permitted w wallet xdr _ e refl h

  Permitted-prepare :
      (w : World V) (xdr : String) (b : FeeBump V)
      → Permitted sdk w xdr b
      → prepare sdk w w.hot_wallet xdr ≡ ok b
  unfolding prepare prepare_decoded prepare_envelope
  Permitted-prepare w xdr b p =
      let valid =
        ok-validate p.allowed (inner_of p.env) p.target_given p.some_operation p.invocations in
      let signed = (is_signed_iff (inner_of p.env).signatures).1 p.signed in
      let timely = (check_times_iff sdk (w.now / 1000) (inner_of p.env).time_bounds).1 p.timely in
      rw p.configured (
        rw p.decoded (
          rw p.target
            (rw valid (rw signed (rw timely (ok-sponsored_bump p.wallet p.env p.sponsored))))))

  -- What a request does: it is refused and sends nothing, or it sends the one transaction that is
  -- permitted, and answers what the network replied.
  abbrev pub Relayed :
      World V → String → List (FeeBump V) → Answer String × List (FeeBump V) → Type 0
  Relayed w xdr sent (answer, sent') =
      ((why : Refusal) × (answer ≡ refused why) × (sent' ≡ sent))
      ⊎ ((b : FeeBump V) × Permitted sdk w xdr b
          × (sent' ≡ b ∷ sent)
          × (answer ≡ answer_of (w.send_transaction b)))

  submit-Relayed :
      (w : World V) (xdr : String) (m : Answer (FeeBump V)) (sent : List (FeeBump V))
      → prepare sdk w w.hot_wallet xdr ≡ m
      → Relayed w xdr sent (submit sdk w m sent)
  unfolding submit
  submit-Relayed w xdr (refused why) sent e = inl (why, refl, refl)
  submit-Relayed w xdr (ok b) sent e =
      inr (b, prepare-Permitted w w.hot_wallet xdr refl e, refl, refl)

  -- Whatever a client hands in, the relay sends at most one transaction for it, and that only if a
  -- wallet is configured, the text decodes, every operation of the client's transaction (and there is
  -- one) invokes the contract of the settings, the transaction has a signature, the time lies in its
  -- bounds, and what is sent, with the wallet's signature, is the client's own fee bump, which names
  -- the wallet as its source, or the one that the SDK builds for the transaction with 500 stroops
  -- over its fee. Else the request is refused and nothing is sent.
  pub relays_only_permitted :
      (w : World V) (xdr : String) (sent : List (FeeBump V))
      → Relayed w xdr sent (sponsor_and_submit sdk w xdr sent)
  unfolding sponsor_and_submit
  relays_only_permitted w xdr sent = submit-Relayed w xdr _ sent refl

  -- A permitted transaction is sent, once, and the answer is the network's. Nothing bounds the fee of
  -- a fee bump that the client built: it is sent as it came, with the wallet's signature.
  pub relays_each-Permitted :
      (w : World V) (xdr : String) (sent : List (FeeBump V)) (b : FeeBump V)
      → Permitted sdk w xdr b
      → sponsor_and_submit sdk w xdr sent ≡ (answer_of (w.send_transaction b), b ∷ sent)
  unfolding sponsor_and_submit submit
  relays_each-Permitted w xdr sent b p = rw (Permitted-prepare w xdr b p)
