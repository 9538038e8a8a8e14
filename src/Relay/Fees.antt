-- ===== src/Relay/Fees.antt =====
-- packages/backend/src/relay/relay.service.ts: the estimate of a fee, and the price that it is
-- converted at (estimateFee, getXlmUsdPrice). Doubles are their bit patterns.
use Prim.Native.String.{String}
use backit_on_stellar.Prelude.{
  ℕ, ◌+◌, ◌<◌, ◌≤◌, ◌≡◌, arith, refl, ap, Bool, true, false, List, [], ◌∷◌, Option, none, some, ltb,
  lt→ltb, or_else, All, if◌then◌else◌,
}
use backit_on_stellar.Relay.{Transaction, Envelope, inner_of, Answer, ok, refused, invalid_xdr, Sdk}

pub record PriceCache : Type 0 where
  pub usd : ℕ
  pub expires_at : ℕ

-- What CoinGecko gives: no JSON, or JSON with `stellar.usd` or without it.
pub data Quote : Type 0 where
  unreadable : Quote
  json : Option ℕ → Quote

-- With the number of requests that were sent to CoinGecko.
pub record Prices : Type 0 where
  pub xlm_price_cache : Option PriceCache
  pub requests : ℕ

-- The clock before and after a request to CoinGecko, and the reply to it.
pub record Moment : Type 0 where
  pub now : ℕ
  pub later : ℕ
  pub quote : Quote

unfoldable pub stale_usd : Option PriceCache → ℕ
stale_usd none = 0
stale_usd (some c) = c.usd

unfoldable pub after_fetch : Quote → Prices → ℕ → ℕ × Prices
unfolding stale_usd
after_fetch unreadable s later =
    (stale_usd s.xlm_price_cache, record s { requests = s.requests + 1 })
after_fetch (json usd) s later = (
  or_else usd 0,
  record {
    xlm_price_cache = some (record { usd = or_else usd 0; expires_at = later + 60000 });
    requests = s.requests + 1;
  },
)

unfoldable pub price_from : Option PriceCache → Prices → Moment → ℕ × Prices
unfolding after_fetch
price_from none s m = after_fetch m.quote s m.later
price_from (some c) s m =
    if ltb m.now c.expires_at then (c.usd, s) else after_fetch m.quote s m.later

unfoldable pub get_xlm_usd_price : Prices → Moment → ℕ × Prices
unfolding price_from
get_xlm_usd_price s m = price_from s.xlm_price_cache s m

-- What `simulateTransaction` gives: it throws, no success, or a success with what it tells of the
-- least fee and of the cost.
pub data Simulated : Type 0 where
  sim_throws sim_failure : Simulated
  sim_success : Option ℕ → Option String → Simulated

pub record FeeEstimate : Type 0 where
  pub estimated_gas_xlm : String
  pub estimated_gas_usd : String
  pub resource_cost : Option String
  pub sponsored : Bool

-- `Number` of a BigInt, and the arithmetic of doubles.
pub record Doubles : Type 0 where
  pub number : ℕ → ℕ
  pub div : ℕ → ℕ → ℕ
  pub mul : ℕ → ℕ → ℕ
  pub to_fixed : ℕ → ℕ → String
  pub parse_float : String → ℕ

unfoldable pub fee_stroops : ℕ → Simulated → ℕ
fee_stroops fee (sim_success (some least) cost) = least
fee_stroops fee _ = fee

unfoldable pub cost_of : Simulated → Option String
cost_of (sim_success least cost) = cost
cost_of _ = none

unfoldable pub is_configured : Option String → Bool
is_configured none = false
is_configured (some _) = true

unfoldable pub in_usd : Doubles → String → ℕ → String
in_usd fl xlm usd = fl.to_fixed (fl.mul (fl.parse_float xlm) usd) 6

stale_ltb : (a b : ℕ) → b ≤ a → ltb a b ≡ false
stale_ltb a b h = ground arith

module _ {V : Type 0} (sdk : Sdk V) (fl : Doubles) (wallet : Option String) where
  unfoldable pub estimate_of : Transaction V → Simulated → ℕ → FeeEstimate
  unfolding fee_stroops cost_of is_configured in_usd
  estimate_of tx sim usd =
      let xlm = fl.to_fixed (fl.div (fl.number (fee_stroops tx.fee sim)) (fl.number 10000000)) 7 in
      record {
        estimated_gas_xlm = xlm;
        estimated_gas_usd = in_usd fl xlm usd;
        resource_cost = cost_of sim;
        sponsored = is_configured wallet;
      }

  unfoldable pub estimate_decoded :
      Option (Envelope V)
      → (Transaction V → Simulated)
      → Prices
      → Moment
      → Answer FeeEstimate × Prices
  unfolding estimate_of get_xlm_usd_price
  estimate_decoded none simulate s m = (refused invalid_xdr, s)
  estimate_decoded (some env) simulate s m =
      let tx = inner_of env in
      let (usd, s') = get_xlm_usd_price s m in (ok (estimate_of tx (simulate tx) usd), s')

  unfoldable pub estimate_fee :
      String → (Transaction V → Simulated) → Prices → Moment → Answer FeeEstimate × Prices
  unfolding estimate_decoded
  estimate_fee xdr simulate s m = estimate_decoded (sdk.from_xdr xdr) simulate s m

  pub record Request : Type 0 where
    pub xdr : String
    pub simulate : Transaction V → Simulated
    pub moment : Moment

  -- Requests one after another.
  unfoldable pub estimates : Prices → List Request → List (Answer FeeEstimate) × Prices
  unfolding estimate_fee
  estimates s [] = ([], s)
  estimates s (r ∷ rs) =
      let (a, s') = estimate_fee r.xdr r.simulate s r.moment in
      let (later, s'') = estimates s' rs in (a ∷ later, s'')

  -- An estimate is in dollars at this price.
  abbrev pub PricedAt : ℕ → Answer FeeEstimate → Type 0
  PricedAt usd (refused why) = Unit
  PricedAt usd (ok e) = e.estimated_gas_usd ≡ in_usd fl e.estimated_gas_xlm usd

  cached_price :
      (s : Prices) (m : Moment) (c : PriceCache)
      → m.now < c.expires_at
      → s.xlm_price_cache ≡ some c
      → get_xlm_usd_price s m ≡ (c.usd, s)
  unfolding get_xlm_usd_price
  cached_price s m c h e = rw e (rw (lt→ltb _ _ h))

  cached_estimate :
      (s : Prices) (r : Request) (c : PriceCache) (env : Option (Envelope V))
      → r.moment.now < c.expires_at
      → s.xlm_price_cache ≡ some c
      → PricedAt c.usd (estimate_decoded env r.simulate s r.moment).0
        × ((estimate_decoded env r.simulate s r.moment).1 ≡ s)
  unfolding estimate_decoded
  cached_estimate s r c none h e = (tt, refl)
  cached_estimate s r c (some env) h e = rw (cached_price s r.moment c h e) (refl, refl)

  -- While the price is cached nothing is requested, and every estimate uses it.
  cached_estimates :
      (s : Prices) (rs : List Request) (c : PriceCache)
      → s.xlm_price_cache ≡ some c
      → All (λ (r : Request). r.moment.now < c.expires_at) rs
      → All (PricedAt c.usd) (estimates s rs).0 × ((estimates s rs).1 ≡ s)
  unfolding estimates estimate_fee
  cached_estimates s [] c e h = (tt, refl)
  cached_estimates s (r ∷ rs) c e h =
      let (priced, same) = cached_estimate s r c (sdk.from_xdr r.xdr) h.0 e in
      let (others, last) = cached_estimates s rs c e h.1 in rw same ((priced, others), last)

  -- There is no price that is still fresh.
  abbrev pub Stale : Option PriceCache → ℕ → Type 0
  Stale none now = Unit
  Stale (some c) now = c.expires_at ≤ now

  expired_price :
      (cache : Option PriceCache) (s : Prices) (m : Moment)
      → Stale cache m.now
      → price_from cache s m ≡ after_fetch m.quote s m.later
  unfolding price_from
  expired_price none s m h = refl
  expired_price (some c) s m h = rw (stale_ltb m.now c.expires_at h)

  fetched_estimate :
      (s : Prices) (r : Request) (m : Option (Envelope V)) (env : Envelope V) (usd : Option ℕ)
      → m ≡ some env
      → Stale s.xlm_price_cache r.moment.now
      → r.moment.quote ≡ json usd
      → PricedAt (or_else usd 0) (estimate_decoded m r.simulate s r.moment).0
        × ((estimate_decoded m r.simulate s r.moment).1
            ≡ (after_fetch (json usd) s r.moment.later).1)
  unfolding estimate_decoded get_xlm_usd_price
  fetched_estimate s r m env usd e h q =
      rw e (rw (expired_price s.xlm_price_cache s r.moment h) (rw q (refl, refl)))

  -- Once a price was requested and JSON came back, all estimates of the next minute use that one
  -- answer, and none of them requests another. An answer without a price counts as the price 0, and
  -- replaces the one that was known.
  pub one_quote_a_minute :
      (s : Prices) (r : Request) (rs : List Request) (env : Envelope V) (usd : Option ℕ)
      → sdk.from_xdr r.xdr ≡ some env
      → Stale s.xlm_price_cache r.moment.now
      → r.moment.quote ≡ json usd
      → All (λ (q : Request). q.moment.now < r.moment.later + 60000) rs
      → All (PricedAt (or_else usd 0)) (estimates s (r ∷ rs)).0
        × ((estimates s (r ∷ rs)).1.requests ≡ s.requests + 1)
  unfolding estimates estimate_fee after_fetch
  one_quote_a_minute s r rs env usd decodes stale quoted soon =
      let (priced, after) =
        fetched_estimate s r (sdk.from_xdr r.xdr) env usd decodes stale quoted in
      let c : PriceCache = record { usd = or_else usd 0; expires_at = r.moment.later + 60000 } in
      let s' = (after_fetch (json usd) s r.moment.later).1 in
      let (others, last) = cached_estimates s' rs c refl soon in
      rw after ((priced, others), ap (λ (p : Prices). p.requests) last)
