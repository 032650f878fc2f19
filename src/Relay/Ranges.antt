-- ===== src/Relay/Ranges.antt =====
-- src/transfer/relay.rs, `IpNet`: which addresses a range has.
use mathlib.Core.Logic.{◌↔◌}
use Prim.Native.Nat.{bit_and}
use native.Mathlib.Nat.{one-le-pow, mul-div_cancel}
use zfs_evacuation_controlle.Base.{
  ℕ, ◌-◌, ◌*◌, ◌/◌, ◌^◌, ◌≤◌, ◌<◌, true, ◌≡◌, refl, sym, ap, ◌∙◌, arith, ◌==◌,
}
use zfs_evacuation_controlle.Effect.{IpAddr, v4, v6, IpNet}
use zfs_evacuation_controlle.Relay.{width, mask, masked_eq, in_net, in_range}
use zfs_evacuation_controlle.Relay.Masks.{high_ones_lem, mask_lem}

-- The number of an address, and that it fits its family.
abbrev pub number_of : IpAddr → ℕ
number_of (v4 n) = n
number_of (v6 n) = n

abbrev pub IsAddress : IpAddr → Type 0
IsAddress ip = number_of ip < 2 ^ width ip

-- Without their last `width - prefix` bits, the two are the same.
abbrev pub HasPrefixOf : IpNet → IpAddr → Type 0
HasPrefixOf net ip =
    (width net.addr ≡ width ip)
    × (let k = width net.addr - net.prefix in number_of net.addr / 2 ^ k ≡ number_of ip / 2 ^ k)

product_cancel : (b x y : ℕ) → 0 < b → x * b ≡ y * b → x ≡ y
product_cancel b x y pos e =
    sym (mul-div_cancel x pos) ∙ ap (λ (t : ℕ). t / b) e ∙ mul-div_cancel y pos

eq_iff : (x y : ℕ) → ((x == y) ≡ true) ↔ (x ≡ y)
eq_iff x y = (λ h. ground arith, λ h. ground arith)

masked_eq_iff :
    (w a b p : ℕ)
    → p ≤ w
    → a < 2 ^ w
    → b < 2 ^ w
    → (masked_eq w a b p ≡ true) ↔ (a / 2 ^ (w - p) ≡ b / 2 ^ (w - p))
unfolding masked_eq
masked_eq_iff w a b p h fa fb = (
  λ e.
      product_cancel (2 ^ k) (a / 2 ^ k) (b / 2 ^ k) (one-le-pow k 2 (omega arith))
        (sym left ∙ (eq_iff _ _).0 e ∙ right),
  λ e. (eq_iff _ _).1 (left ∙ ap (λ (t : ℕ). t * 2 ^ k) e ∙ sym right),
)
  where
    k : ℕ
    k = w - p

    left : bit_and a (mask w p) ≡ a / 2 ^ k * 2 ^ k
    left = rw (mask_lem w p h) (high_ones_lem k w a (omega arith) fa)

    right : bit_and b (mask w p) ≡ b / 2 ^ k * 2 ^ k
    right = rw (mask_lem w p h) (high_ones_lem k w b (omega arith) fb)

-- A well-formed range has an address exactly when the two are of one family and agree in the first
-- `prefix` bits.
pub in_range_iff :
    (net : IpNet) (ip : IpAddr)
    → net.prefix ≤ width net.addr
    → IsAddress net.addr
    → IsAddress ip
    → (in_range net ip ≡ true) ↔ HasPrefixOf net ip
unfolding in_range in_net
in_range_iff net ip h fa fb = by_family net.addr ip h fa fb
  where
    by_family :
        (a b : IpAddr)
        → net.prefix ≤ width a
        → IsAddress a
        → IsAddress b
        → (in_net a b net.prefix ≡ true) ↔ (
            (width a ≡ width b)
            × (number_of a / 2 ^ (width a - net.prefix) ≡ number_of b / 2 ^ (width a - net.prefix)))
    by_family (v4 a) (v4 b) h fa fb =
        let i = masked_eq_iff 32 a b net.prefix h fa fb in (λ e. (refl, i.0 e), λ e. i.1 e.1)
    by_family (v6 a) (v6 b) h fa fb =
        let i = masked_eq_iff 128 a b net.prefix h fa fb in (λ e. (refl, i.0 e), λ e. i.1 e.1)
    by_family (v4 a) (v6 b) h fa fb = (λ e. cc, λ e. absurd (let no : ⊥ = omega (arith, e.0) in no))
    by_family (v6 a) (v4 b) h fa fb = (λ e. cc, λ e. absurd (let no : ⊥ = omega (arith, e.0) in no))
