-- ===== src/Oracle/Prices.antt =====
-- Prices in packages/backend/src/oracle/oracle.service.ts: getAssetParams, fetchHorizonMidpoint and
-- the test for a deviation.
use Prim.Native.String.{String}
use backit_on_stellar.Prelude.{
  ℕ, Bool, List, [], ◌∷◌, Option, none, some, ◌||◌, leb, length, if◌then◌else◌,
}
use backit_on_stellar.Prelude.Text.{units, units_eq}
use backit_on_stellar.Prelude.Split.{includes, split_head, split_tail, second_part}

-- The arithmetic of doubles, as bit patterns, and the functions that read them from texts.
pub record Doubles : Type 0 where
  pub parse_float : String → ℕ
  pub to_number : String → ℕ
  pub of_nat : ℕ → ℕ
  pub add : ℕ → ℕ → ℕ
  pub sub : ℕ → ℕ → ℕ
  pub div : ℕ → ℕ → ℕ
  pub abs : ℕ → ℕ
  pub gt : ℕ → ℕ → Bool
  pub ge : ℕ → ℕ → Bool

pub record AssetParams : Type 0 where
  pub asset_type : String
  pub asset_code : Option (List ℕ)
  pub asset_issuer : Option (List ℕ)

-- A row of the table of tokens.
pub record Token : Type 0 where
  pub token_code : List ℕ
  pub token_issuer : Option (List ℕ)

-- What the order book endpoint answers: the request fails, or a status that is not in the 200s, or
-- the prices of the bids and asks, each list possibly missing.
pub data Book : Type 0 where
  unreachable : Book
  not_ok : ℕ → Book
  book : Option (List String) → Option (List String) → Book

-- `toUpperCase`, the table of tokens, and Horizon.
pub record Horizon : Type 0 where
  pub to_upper : List ℕ → List ℕ
  pub find_token : List ℕ → Option Token
  pub fetch_book : AssetParams → AssetParams → Book

abbrev pub native_asset : AssetParams
native_asset = record { asset_type = "native"; asset_code = none; asset_issuer = none }

abbrev pub usdc : AssetParams
usdc = record {
  asset_type = "credit_alphanum4";
  asset_code = some (units "USDC");
  asset_issuer = some (units "GA5ZSEJYB37JRC5AVCIA5MOP4RHTM335X2KGX3IHOJAPP5RE34K4KZVN");
}

abbrev pub yxlm : AssetParams
yxlm = record {
  asset_type = "credit_alphanum4";
  asset_code = some (units "yXLM");
  asset_issuer = some (units "GARDNV3Q7YGT4AKSDF25LT32YSCCW4EV22Y2TV3I2PU2MMXJTEDL5T55");
}

unfoldable pub alphanum : List ℕ → String
alphanum code = if leb (length code) 4 then "credit_alphanum4" else "credit_alphanum12"

unfoldable pub split_asset : ℕ → List ℕ → AssetParams
unfolding split_head split_tail second_part alphanum
split_asset x token =
    let code = split_head x token in
    record {
      asset_type = alphanum code;
      asset_code = some code;
      asset_issuer = second_part x (split_tail x token);
    }

-- An issuer that is missing or empty makes the token a native asset.
unfoldable pub token_asset : Option Token → Option AssetParams
unfolding alphanum
token_asset none = none
token_asset (some t) = some (of_issuer t.token_issuer)
  where
    of_issuer : Option (List ℕ) → AssetParams
    of_issuer none = native_asset
    of_issuer (some []) = native_asset
    of_issuer (some (x ∷ issuer)) = record {
      asset_type = alphanum t.token_code;
      asset_code = some t.token_code;
      asset_issuer = some (x ∷ issuer);
    }

-- The code units of ':' and '-'.
abbrev pub colon : ℕ
colon = 58

abbrev pub hyphen : ℕ
hyphen = 45

unfoldable pub get_asset_params : Horizon → List ℕ → Option AssetParams
unfolding split_asset token_asset includes
get_asset_params hz token =
    let upper = hz.to_upper token in
    if units_eq upper (units "XLM") || units_eq upper (units "NATIVE")
    then some native_asset
    else if units_eq upper (units "USDC")
    then some usdc
    else if units_eq upper (units "YXLM")
    then some yxlm
    else if includes colon token
    then some (split_asset colon token)
    else if includes hyphen token
    then some (split_asset hyphen token)
    else token_asset (hz.find_token token)

-- `fetchHorizonMidpoint` in the `try` of `resolveMarket`: a request that throws, a missing asset and
-- an empty book all skip the cross-check.
unfoldable pub midpoint_of : Doubles → Book → Option ℕ
midpoint_of fl unreachable = none
midpoint_of fl (not_ok status) = none
midpoint_of fl (book (some (bid ∷ bids)) (some (ask ∷ asks))) =
    some (fl.div (fl.add (fl.parse_float bid) (fl.parse_float ask)) (fl.of_nat 2))
midpoint_of fl (book _ _) = none

unfoldable pub midpoint_between :
    Doubles → Horizon → Option AssetParams → Option AssetParams → Option ℕ
unfolding midpoint_of
midpoint_between fl hz (some selling) (some buying) = midpoint_of fl (hz.fetch_book selling buying)
midpoint_between fl hz _ _ = none

unfoldable pub fetch_horizon_midpoint : Doubles → Horizon → List ℕ → List ℕ → Option ℕ
unfolding midpoint_between get_asset_params
fetch_horizon_midpoint fl hz base quote =
    midpoint_between fl hz (get_asset_params hz base) (get_asset_params hz quote)

-- `deviation > threshold`.
unfoldable pub is_deviating : Doubles → ℕ → ℕ → ℕ → Bool
is_deviating fl bps dex mid =
    let threshold = fl.div (fl.of_nat bps) (fl.of_nat 10000) in
    let deviation = fl.div (fl.abs (fl.sub dex mid)) mid in fl.gt deviation threshold
