-- ===== src/Firewall/Address.antt =====
-- Addresses and CIDR texts in packages/backend/src/firewall/utils/ip-matcher.util.ts.
use backit_on_stellar.Prelude.{
  ℕ, zero, suc, ◌-◌, Bool, false, not, List, [], ◌∷◌, ◌++◌, map, Option, none, some, ◌||◌, ◌&&◌,
  ◌==◌, length, if◌then◌else◌,
}
use backit_on_stellar.Prelude.Text.{units, units_eq}
use backit_on_stellar.Prelude.Split.{includes, split_head, split_tail, second_part, split_all}
use backit_on_stellar.Firewall.Block.{
  Bits, nan, negative, whole, ipv4_in_cidr, ipv6_in_cidr, ip_to_uint32, ipv6_to_big_int,
}

-- Node's `net.isIPv4` and `net.isIPv6`, `parseInt`, also to the base 16, and `trim`.
pub record Net : Type 0 where
  pub is_ipv4 : List ℕ → Bool
  pub is_ipv6 : List ℕ → Bool
  pub parse_int : List ℕ → Bits
  pub parse_hex : List ℕ → ℕ
  pub trim : List ℕ → List ℕ

unfoldable pub is_f : ℕ → Bool
is_f c = c == 102 || c == 70

-- `replace(/^::ffff:/i, '')`.
unfoldable pub strip_mapped : List ℕ → List ℕ
unfolding is_f
strip_mapped (c ∷ d ∷ e ∷ f ∷ g ∷ h ∷ i ∷ rest) =
    if c == 58 && (d == 58 && (is_f e && (is_f f && (is_f g && (is_f h && i == 58)))))
    then rest
    else c ∷ d ∷ e ∷ f ∷ g ∷ h ∷ i ∷ rest
strip_mapped short = short

-- An octet of an IPv4 address, which consists of digits.
unfoldable pub octet_value : Bits → ℕ
octet_value (whole n) = n
octet_value nan = 0
octet_value negative = 0

unfoldable pub ipv4_value : Net → List ℕ → ℕ
unfolding octet_value
ipv4_value net text =
    ip_to_uint32 0 (map (λ part. octet_value (net.parse_int part)) (split_all 46 text))

unfoldable pub prepend : ℕ → Option (List ℕ × List ℕ) → Option (List ℕ × List ℕ)
prepend c none = none
prepend c (some (left, right)) = some (c ∷ left, right)

-- The two halves around '::', which an IPv6 address has at most once.
unfoldable pub halves : List ℕ → Option (List ℕ × List ℕ)
unfolding prepend
halves [] = none
halves (c ∷ []) = none
halves (c ∷ d ∷ rest) =
    let later = prepend c (halves (d ∷ rest)) in
    if c == 58 && d == 58 then some ([], rest) else later

unfoldable pub groups_of : List ℕ → List (List ℕ)
groups_of [] = []
groups_of (c ∷ text) = split_all 58 (c ∷ text)

unfoldable pub zeros : ℕ → List ℕ
zeros zero = []
zeros (suc n) = 0 ∷ zeros n

-- `expandIPv6`, with the groups as numbers; padding does not change them.
unfoldable pub expand_ipv6 : Net → List ℕ → Option (List ℕ × List ℕ) → List ℕ
unfolding groups_of zeros
expand_ipv6 net text none = map net.parse_hex (split_all 58 text)
expand_ipv6 net text (some (left, right)) =
    let l = map net.parse_hex (groups_of left) in
    let r = map net.parse_hex (groups_of right) in l ++ (zeros (8 - length l - length r) ++ r)

unfoldable pub ipv6_value : Net → List ℕ → ℕ
unfolding expand_ipv6 halves
ipv6_value net text = ipv6_to_big_int 0 (expand_ipv6 net text (halves text))

unfoldable pub bits_of : Net → Option (List ℕ) → Bits
bits_of net none = nan
bits_of net (some text) = net.parse_int text

unfoldable pub matches_block : Net → List ℕ → List ℕ → Bits → Bool
unfolding ipv4_value ipv6_value
matches_block net ip range bits =
    if net.is_ipv4 ip && net.is_ipv4 range
    then ipv4_in_cidr (ipv4_value net ip) (ipv4_value net range) bits
    else if net.is_ipv6 ip && net.is_ipv6 range
    then ipv6_in_cidr (ipv6_value net ip) (ipv6_value net range) bits
    else false

unfoldable pub ip_matches_cidr : Net → List ℕ → List ℕ → Bool
unfolding strip_mapped bits_of matches_block
ip_matches_cidr net ip cidr =
    let clean = strip_mapped ip in
    let bits = bits_of net (second_part 47 (split_tail 47 cidr)) in
    if not (includes 47 cidr)
    then (net.is_ipv4 clean || net.is_ipv6 clean) && units_eq clean cidr
    else matches_block net clean (split_head 47 cidr) bits

-- A header: missing, one text, or several.
pub data Header : Type 0 where
  absent : Header
  single : List ℕ → Header
  several : List ℕ → List (List ℕ) → Header

pub record Source : Type 0 where
  pub cf_connecting_ip : Header
  pub x_real_ip : Header
  pub x_forwarded_for : Header
  pub ip : Option (List ℕ)
  pub remote_address : Option (List ℕ)

-- The first text of a header that is not missing or empty.
unfoldable pub header_text : Header → Option (List ℕ)
header_text absent = none
header_text (single []) = none
header_text (single (c ∷ text)) = some (c ∷ text)
header_text (several text rest) = some text

unfoldable pub peer_of : Option (List ℕ) → Option (List ℕ) → List ℕ
peer_of (some ip) remote = ip
peer_of none (some remote) = remote
peer_of none none = units "0.0.0.0"

unfoldable pub forwarded : Net → Option (List ℕ) → Source → List ℕ
unfolding peer_of
forwarded net (some text) src = net.trim (split_head 44 text)
forwarded net none src = peer_of src.ip src.remote_address

unfoldable pub real_ip : Net → Option (List ℕ) → Source → List ℕ
unfolding forwarded header_text
real_ip net (some text) src = text
real_ip net none src = forwarded net (header_text src.x_forwarded_for) src

unfoldable pub first_ip : Net → Option (List ℕ) → Source → List ℕ
unfolding real_ip header_text
first_ip net (some text) src = text
first_ip net none src = real_ip net (header_text src.x_real_ip) src

unfoldable pub extract_client_ip : Net → Source → List ℕ
unfolding first_ip header_text
extract_client_ip net src = first_ip net (header_text src.cf_connecting_ip) src
