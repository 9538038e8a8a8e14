-- ===== src/Firewall/Tests.antt =====
-- Runs of packages/backend/src/firewall on a concrete rule.
use Prim.Native.String.{String}
use backit_on_stellar.Prelude.{
  ℕ, ◌+◌, ◌-◌, ◌*◌, ◌/◌, ◌^◌, ◌≡◌, ◌≢◌, ◌↔◌, refl, true, false, List, [], ◌∷◌, none, some, arith,
  if◌then◌else◌,
}
use backit_on_stellar.Prelude.Text.{str_eq, str_eq_iff, units}
use backit_on_stellar.Prelude.Split.{includes, second_part, split_tail, split_all}
use backit_on_stellar.Firewall.Block.{whole, in_block, ipv4_in_cidr, ip_to_uint32}
use backit_on_stellar.Firewall.Block.Prefix.{in_block_iff}
use backit_on_stellar.Firewall.Address.{Net, ip_matches_cidr}
use backit_on_stellar.Firewall.{
  whitelist, blacklist, IpRule, IpRuleType, allowed, Snapshot, Firewall, Outside, evaluate,
  add_rule,
}
use backit_on_stellar.Firewall.Traces.{
  Op, requesting, failing_turnstile, adding, removing, run, whitelist_wins,
}

decimal : ℕ → List ℕ → ℕ
decimal acc [] = acc
decimal acc (c ∷ text) = decimal (acc * 10 + (c - 48)) text

-- Every address is IPv4 here.
abbrev node : Net
node = record {
  is_ipv4 = λ text. true;
  is_ipv6 = λ text. false;
  parse_int = λ text. whole (decimal 0 text);
  parse_hex = λ text. 0;
  trim = λ text. text;
}

abbrev outside : Outside
outside = record { net = node; test = λ pattern text. false }

abbrev empty : Firewall
empty = record { rules = []; rule_cache = []; cache_loaded_at = 0; log = [] }

abbrev ten : IpRuleType → IpRule
ten type = record {
  id = "1";
  cidr = units "10.0.0.0/8";
  type = type;
  reason = none;
  created_by = none;
}

abbrev snap : Snapshot
snap = record {
  ip = units "::ffff:10.1.2.3";
  method = "GET";
  path = "/";
  user_agent = none;
  headers = λ name. if str_eq name "cookie" then some "secret" else some "x";
}

in_ten : (t : IpRuleType) → ip_matches_cidr node snap.ip (ten t).cidr ≡ true
unfolding ip_matches_cidr decimal includes ipv4_in_cidr second_part split_tail ip_to_uint32
    split_all
in_ten t = refl

not_in_sixteen : ip_matches_cidr node snap.ip (units "10.0.0.0/16") ≡ false
unfolding ip_matches_cidr decimal includes ipv4_in_cidr second_part split_tail ip_to_uint32
    split_all
not_in_sixteen = refl

-- A black rule for all of the block, requests, and the removal of the black rule.
abbrev traffic : List Op
traffic =
    adding (record (ten blacklist) { id = "2" }) 2
    ∷ requesting outside snap "first" true 70000
    ∷ failing_turnstile snap "second" true
    ∷ removing "2" 80000
    ∷ []

abbrev rule_id : String
rule_id = "1"

abbrev other_id : String
other_id = "2"

ids_differ : rule_id ≢ other_id
ids_differ e = let h : str_eq rule_id other_id ≡ true = (str_eq_iff rule_id other_id).1 e in cc

whitelist_wins_example :
    let f' = run (add_rule empty (ten whitelist) 1) traffic in
    let (verdict, after) = evaluate outside f' snap "code" true 90000 in
    (verdict ≡ allowed) × (after.log ≡ f'.log)
whitelist_wins_example =
    whitelist_wins outside empty (ten whitelist) traffic snap "code" true 1 90000 refl
      (in_ten whitelist) (tt, (tt, (tt, (ids_differ, tt))))

-- 10.1.2.3 and 10.0.0.0.
in_block_iff_example :
    (in_block 32 167838211 167772160 8 ≡ true)
    ↔ (167838211 / 2 ^ (32 - 8) ≡ 167772160 / 2 ^ (32 - 8))
in_block_iff_example =
    in_block_iff 32 167838211 167772160 8 (omega arith) (omega arith) (omega arith)
