-- ===== src/Firewall/Block/Prefix.antt =====
-- The blocks of packages/backend/src/firewall/utils/ip-matcher.util.ts as common prefixes.
use Prim.Native.Nat.{bit_and, digits, bit_and-bitwise}
use native.Mathlib.Nat.{
  two-pow-succ, one-le-pow, pow-le-pow_right, div-div-eq-div-mul, zero-div, mul-add-mod_self_left,
  mod-eq_of_lt, mul-div_cancel,
}
use backit_on_stellar.Prelude.{
  ℕ, zero, suc, ◌+◌, ◌-◌, ◌*◌, ◌/◌, ◌%◌, ◌^◌, ◌≤◌, ◌<◌, min, ◌≡◌, ◌↔◌, sym, ap, ◌∙◌, true, false,
  ◌==◌, ==_iff, arith,
}
use backit_on_stellar.Firewall.Block.{mask, in_block}

-- The digits that a mask leaves of a number.
abbrev masked : ℕ → ℕ → ℕ → ℕ
masked n a m = digits (λ b. zero) min n a m

pos_pow : (k : ℕ) → 1 ≤ 2 ^ k
pos_pow k = one-le-pow k 2 (omega arith)

zero-masked : (n k m : ℕ) → masked n 0 m ≡ 0 / 2 ^ k * 2 ^ k
zero-masked zero k m = rw (zero-div (2 ^ k)) (omega arith)
zero-masked (suc n) k m = rw (zero-div (2 ^ k)) (omega arith)

double_digit : (x y r z : ℕ) → z ≡ y + y → x * y * 2 + min r 0 ≡ x * z
double_digit x y r z e = rw e (grind arith)

-- Minus `q`, wrapped around at `p`.
wrap : (p q : ℕ) → 1 ≤ p → 1 ≤ q → q ≤ p → (p - 1) * q % p ≡ p - q
wrap zero q a b c = absurd (omega arith)
wrap (suc p) zero a b c = absurd (omega arith)
wrap (suc p) (suc q) a b c =
    let split : (suc p - 1) * suc q ≡ suc p * q + (p - q) = grind arith in
    let below : p - q < suc p = omega arith in
    rw split (mul-add-mod_self_left (suc p) q (p - q) ∙ mod-eq_of_lt below ∙ omega arith)

-- A mask that has zeros for the lowest k digits of w cuts a number down to a multiple of 2 ^ k.
masked_prefix :
    (n k w a : ℕ) → a ≤ n → a < 2 ^ w → k ≤ w → masked n a (2 ^ w - 2 ^ k) ≡ a / 2 ^ k * 2 ^ k
masked_prefix n k w zero le lt kw = zero-masked n k _
masked_prefix zero k w (suc a) le lt kw = absurd (omega arith)
masked_prefix (suc n) k zero (suc a) le lt kw = absurd (omega arith)
masked_prefix (suc n) zero (suc w) (suc a) le lt kw =
    let p = two-pow-succ w in
    let q = pos_pow w in
    let half : (2 ^ suc w - 2 ^ 0) / 2 ≡ 2 ^ w - 2 ^ 0 = omega (arith, p, q) in
    let odd : (2 ^ suc w - 2 ^ 0) % 2 ≡ 1 = omega (arith, p, q) in
    let ih = masked_prefix n zero w (suc a / 2) (omega arith) (omega (arith, p)) (omega arith) in
    rw half (rw odd (rw ih (omega arith)))
masked_prefix (suc n) (suc k) (suc w) (suc a) le lt kw =
    let p = two-pow-succ w in
    let q = two-pow-succ k in
    let half : (2 ^ suc w - 2 ^ suc k) / 2 ≡ 2 ^ w - 2 ^ k = omega (arith, p, q) in
    let even : (2 ^ suc w - 2 ^ suc k) % 2 ≡ 0 = omega (arith, p, q) in
    let ih = masked_prefix n k w (suc a / 2) (omega arith) (omega (arith, p)) (omega arith) in
    let d = div-div-eq-div-mul (suc a) 2 (2 ^ k) in
    let e : suc a / 2 / 2 ^ k ≡ suc a / 2 ^ suc k = d ∙ ap (λ m. suc a / m) (omega (arith, q)) in
    rw half (rw even (rw ih (rw e (double_digit (suc a / 2 ^ suc k) (2 ^ k) (suc a % 2) _ q))))

bit_and_mask : (w k a : ℕ) → a < 2 ^ w → k ≤ w → bit_and a (2 ^ w - 2 ^ k) ≡ a / 2 ^ k * 2 ^ k
bit_and_mask w k a lt kw = bit_and-bitwise a _ ∙ masked_prefix a k w a (omega arith) lt kw

-- The mask of some bits: ones for the highest of them.
mask_value : (w bits : ℕ) → bits ≤ w → mask w bits ≡ 2 ^ w - 2 ^ (w - bits)
unfolding mask
mask_value w zero le = let e : w - 0 ≡ w = omega arith in rw e (omega arith)
mask_value w (suc bits) le =
    let nonzero : (suc bits == 0) ≡ false = ground arith in
    let p = pos_pow w in
    let q = pos_pow (w - suc bits) in
    let r : 2 ^ (w - suc bits) ≤ 2 ^ w = pow-le-pow_right (omega arith) (omega arith) in
    rw nonzero (wrap (2 ^ w) (2 ^ (w - suc bits)) p q r)

prefix_of :
    (w bits a : ℕ)
    → a < 2 ^ w
    → bits ≤ w
    → bit_and a (mask w bits) ≡ a / 2 ^ (w - bits) * 2 ^ (w - bits)
prefix_of w bits a lt le = rw (mask_value w bits le) (bit_and_mask w (w - bits) a lt (omega arith))

cancel_right : (x y q : ℕ) → 1 ≤ q → x * q ≡ y * q → x ≡ y
cancel_right x y q pos e = sym (mul-div_cancel x pos) ∙ ap (λ n. n / q) e ∙ mul-div_cancel y pos

-- For addresses below 2 ^ w and at most w bits, the test by masks holds exactly if the addresses
-- agree in their highest bits, which are what is left of them after a shift by the others.
pub in_block_iff :
    (w ip range bits : ℕ)
    → ip < 2 ^ w
    → range < 2 ^ w
    → bits ≤ w
    → (in_block w ip range bits ≡ true) ↔ (ip / 2 ^ (w - bits) ≡ range / 2 ^ (w - bits))
unfolding in_block
in_block_iff w ip range bits a b le =
    let e = prefix_of w bits ip a le in
    let f = prefix_of w bits range b le in
    let pos = pos_pow (w - bits) in
    let same = ==_iff (bit_and ip (mask w bits)) (bit_and range (mask w bits)) in
    (
      (λ h. cancel_right _ _ (2 ^ (w - bits)) pos (sym e ∙ same.0 h ∙ f)),
      (λ h. same.1 (e ∙ ap (λ n. n * 2 ^ (w - bits)) h ∙ sym f)),
    )

pow_plus : (a b : ℕ) → 2 ^ a * 2 ^ b ≡ 2 ^ (a + b)
pow_plus zero b = let e : 0 + b ≡ b = omega arith in rw e (omega arith)
pow_plus (suc a) b =
    let p = two-pow-succ a in
    let q = two-pow-succ (a + b) in
    let e : suc a + b ≡ suc (a + b) = omega arith in
    let ih = pow_plus a b in rw e (rw p (rw q (grind (arith, ih))))

shift_split :
    (w bits fewer : ℕ)
    → bits ≤ w
    → fewer ≤ bits
    → (n : ℕ) → n / 2 ^ (w - fewer) ≡ n / 2 ^ (w - bits) / 2 ^ (bits - fewer)
shift_split w bits fewer le less n =
    let e : (w - bits) + (bits - fewer) ≡ w - fewer = omega arith in
    sym (
      div-div-eq-div-mul n (2 ^ (w - bits)) (2 ^ (bits - fewer))
      ∙ ap (λ m. n / m) (pow_plus (w - bits) (bits - fewer) ∙ ap (λ k. 2 ^ k) e))

-- A block with fewer bits, that is a wider one, around the same address holds every address that a
-- narrower one holds.
pub wider_block :
    (w ip range bits fewer : ℕ)
    → ip < 2 ^ w
    → range < 2 ^ w
    → bits ≤ w
    → fewer ≤ bits
    → in_block w ip range bits ≡ true
    → in_block w ip range fewer ≡ true
wider_block w ip range bits fewer a b le less h =
    let same = (in_block_iff w ip range bits a b le).0 h in
    let split = shift_split w bits fewer le less in
    (in_block_iff w ip range fewer a b (omega arith)).1
      (split ip ∙ ap (λ n. n / 2 ^ (bits - fewer)) same ∙ sym (split range))
