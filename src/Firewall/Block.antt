-- ===== src/Firewall/Block.antt =====
-- Blocks of addresses in packages/backend/src/firewall/utils/ip-matcher.util.ts: ipv4InCidr and
-- ipv6InCidr, on addresses as numbers.
pub mod Prefix
use Prim.Native.Nat.{bit_and}
use backit_on_stellar.Prelude.{
  ℕ, ◌+◌, ◌-◌, ◌*◌, ◌/◌, ◌%◌, ◌^◌, Bool, true, false, List, [], ◌∷◌, ◌||◌, ◌==◌, ltb, if◌then◌else◌,
}

-- What `parseInt` gives for the digits behind the slash.
pub data Bits : Type 0 where
  nan : Bits
  negative : Bits
  whole : ℕ → Bits

-- `(~0 << (width - bits))` as an unsigned number, and 0 for no bits.
unfoldable pub mask : ℕ → ℕ → ℕ
mask width bits = if bits == 0 then 0 else (2 ^ width - 1) * 2 ^ (width - bits) % 2 ^ width

unfoldable pub in_block : ℕ → ℕ → ℕ → ℕ → Bool
unfolding mask
in_block width ip range bits = bit_and ip (mask width bits) == bit_and range (mask width bits)

-- A shift by NaN is a shift by 0, so the mask has all bits.
unfoldable pub ipv4_in_cidr : ℕ → ℕ → Bits → Bool
unfolding in_block
ipv4_in_cidr ip range nan = in_block 32 ip range 32
ipv4_in_cidr ip range negative = false
ipv4_in_cidr ip range (whole bits) = if ltb 32 bits then false else in_block 32 ip range bits

-- `BigInt(NaN)` throws, and the caller answers false.
unfoldable pub ipv6_in_cidr : ℕ → ℕ → Bits → Bool
unfolding in_block
ipv6_in_cidr ip range nan = false
ipv6_in_cidr ip range negative = false
ipv6_in_cidr ip range (whole bits) = if ltb 128 bits then false else in_block 128 ip range bits

-- `ipToUint32` of the four octets: a shift of 32 bits wraps around.
unfoldable pub ip_to_uint32 : ℕ → List ℕ → ℕ
ip_to_uint32 acc [] = acc
ip_to_uint32 acc (octet ∷ octets) = ip_to_uint32 ((acc * 256 + octet) % 2 ^ 32) octets

-- `ipv6ToBigInt` of the groups.
unfoldable pub ipv6_to_big_int : ℕ → List ℕ → ℕ
ipv6_to_big_int acc [] = acc
ipv6_to_big_int acc (group ∷ groups) = ipv6_to_big_int (acc * 65536 + group) groups
