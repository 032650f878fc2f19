-- ===== src/Relay/Masks.antt =====
-- src/transfer/relay.rs, `IpNet::contains`: what a network mask leaves of an address.
use Prim.Native.Nat.{bit_and, bit_and-bitwise, digits, min}
use native.Mathlib.Nat.{
  pow-suc, one-le-pow, pow-le-pow_right, add-mul-mod_self_right, div-div-eq-div-mul, mod-eq_of_lt,
}
use zfs_evacuation_controlle.Base.{
  ℕ, zero, suc, ◌+◌, ◌-◌, ◌*◌, ◌/◌, ◌%◌, ◌^◌, ◌≤◌, ◌<◌, ◌≡◌, refl, sym, ap, ◌∙◌, arith, ◌==◌, false,
}
use zfs_evacuation_controlle.Relay.{mask}

-- The bits in common, from the lowest on, of numbers whose first has at most `n` of them.
abbrev common : ℕ → ℕ → ℕ → ℕ
common n x y = digits (λ _. 0) min n x y

common_steady : (n m x y : ℕ) → x ≤ n → x ≤ m → common n x y ≡ common m x y
common_steady zero zero x y h g = refl
common_steady zero (suc m) zero y h g = refl
common_steady (suc n) zero zero y h g = refl
common_steady (suc n) (suc m) zero y h g = refl
common_steady zero m (suc x) y h g = absurd (omega arith)
common_steady (suc n) zero (suc x) y h g = absurd (omega arith)
common_steady (suc n) (suc m) (suc x) y h g =
    rw (common_steady n m (suc x / 2) (y / 2) (omega arith) (omega arith))

lowest_bit : (x y : ℕ) → bit_and x y ≡ bit_and (x / 2) (y / 2) * 2 + min (x % 2) (y % 2)
lowest_bit zero y = omega (arith, bit_and-bitwise 0 y, bit_and-bitwise 0 (y / 2))
lowest_bit (suc x) y =
    let half = suc x / 2 in
    omega (
      arith,
      bit_and-bitwise (suc x) y,
      bit_and-bitwise half (y / 2),
      common_steady x half half (y / 2) (omega arith) (omega arith),
    )

odd_mask : (x m : ℕ) → bit_and x (m * 2 + 1) ≡ bit_and (x / 2) m * 2 + x % 2
odd_mask x m =
    let half : (m * 2 + 1) / 2 ≡ m = omega arith in
    omega (arith, lowest_bit x (m * 2 + 1), ap (bit_and (x / 2)) half)

even_mask : (x m : ℕ) → bit_and x (m * 2) ≡ bit_and (x / 2) m * 2
even_mask x m =
    let half : m * 2 / 2 ≡ m = omega arith in
    omega (arith, lowest_bit x (m * 2), ap (bit_and (x / 2)) half)

-- All ones.
ones_lem : (w x : ℕ) → x < 2 ^ w → bit_and x (2 ^ w - 1) ≡ x
ones_lem zero zero h = refl
ones_lem zero (suc x) h = absurd (omega arith)
ones_lem (suc w) x h =
    let twice : 2 ^ suc w - 1 ≡ (2 ^ w - 1) * 2 + 1 = omega (arith, pow-suc 2 w, one-le-pow w 2) in
    rw twice
      (omega (arith, odd_mask x (2 ^ w - 1), ones_lem w (x / 2) (omega (arith, pow-suc 2 w))))

-- Ones above `k` zeros.
pub high_ones_lem : (k w x : ℕ) → k ≤ w → x < 2 ^ w → bit_and x (2 ^ w - 2 ^ k) ≡ x / 2 ^ k * 2 ^ k
high_ones_lem zero w x h fits = omega (arith, ones_lem w x fits)
high_ones_lem (suc k) zero x h fits = absurd (omega arith)
high_ones_lem (suc k) (suc w) x h fits =
    let twice : 2 ^ suc w - 2 ^ suc k ≡ (2 ^ w - 2 ^ k) * 2 =
      omega (arith, pow-suc 2 w, pow-suc 2 k) in
    let quotient : x / 2 ^ suc k ≡ x / 2 / 2 ^ k =
      sym (div-div-eq-div-mul x 2 (2 ^ k) ∙ ap (λ (t : ℕ). x / t) (omega (arith, pow-suc 2 k))) in
    rw (twice, quotient)
      (omega (
        arith,
        even_mask x (2 ^ w - 2 ^ k),
        high_ones_lem k w (x / 2) (omega arith) (omega (arith, pow-suc 2 w)),
        ap (λ (t : ℕ). x / 2 / 2 ^ k * t) (pow-suc 2 k),
      ))

-- `MAX << k`, cut to `w` bits.
product_lem : (b d : ℕ) → (d + b) * suc b ≡ d + b * suc (d + b)
product_lem b d = grind arith

shifted_lem : (a b : ℕ) → 0 < b → b ≤ a → ((a - 1) * b) % a ≡ a - b
shifted_lem a zero pos le = elim pos [ ]
shifted_lem a (suc b) pos le =
    let d = a - suc b in
    let less : a - 1 ≡ d + b = omega arith in
    let whole : suc (d + b) ≡ a = omega arith in
    let product : (a - 1) * suc b ≡ d + b * a =
      (rw less (product_lem b d)) ∙ ap (λ (t : ℕ). d + b * t) whole in
    rw product (add-mul-mod_self_right d b a ∙ mod-eq_of_lt (omega arith))

pub mask_lem : (w prefix : ℕ) → prefix ≤ w → mask w prefix ≡ 2 ^ w - 2 ^ (w - prefix)
unfolding mask
mask_lem w zero h = let e : w - 0 ≡ w = omega arith in rw e (omega arith)
mask_lem w (suc p) h =
    let some_ones : (suc p == 0) ≡ false = ground arith in
    rw some_ones (
      shifted_lem (2 ^ w) (2 ^ (w - suc p)) (one-le-pow (w - suc p) 2 (omega arith))
        (pow-le-pow_right (omega arith) (omega arith)))
