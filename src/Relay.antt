-- ===== src/Relay.antt =====
-- src/transfer/relay.rs: the address ranges that the relay accepts from.
pub mod Masks
pub mod Ranges
pub mod Splice
pub mod Stream
pub mod Pipe
pub mod Peers
pub mod Buffer
use Prim.Native.String.{String}
use Prim.Native.Nat.{bit_and}
use zfs_evacuation_controlle.Base.{
  ℕ, ◌*◌, ◌-◌, ◌%◌, ◌^◌, Bool, false, Option, none, some, List, [], ◌∷◌, any, leb, ◌==◌, codes, ltb,
  if◌then◌else◌, and_then,
}
use zfs_evacuation_controlle.Effect.{IpAddr, v4, v6, IpNet}
use zfs_evacuation_controlle.Controller.Quantity.{trim, parse_u128}

abbrev pub width : IpAddr → ℕ
width (v4 _) = 32
width (v6 _) = 128

unfoldable pub host : IpAddr → IpNet
host addr = record { addr = addr; prefix = width addr }

-- `if prefix == 0 { 0 } else { MAX << (w - prefix) }`, on w bits.
unfoldable pub mask : ℕ → ℕ → ℕ
mask w prefix = if prefix == 0 then 0 else ((2 ^ w - 1) * 2 ^ (w - prefix)) % 2 ^ w

-- `net & mask == ip & mask`
masked_eq : ℕ → ℕ → ℕ → ℕ → Bool
unfolding mask
masked_eq w net ip prefix = bit_and net (mask w prefix) == bit_and ip (mask w prefix)

in_net : IpAddr → IpAddr → ℕ → Bool
unfolding masked_eq
in_net (v4 net) (v4 ip) prefix = masked_eq 32 net ip prefix
in_net (v6 net) (v6 ip) prefix = masked_eq 128 net ip prefix
in_net _ _ prefix = false

unfoldable pub in_range : IpNet → IpAddr → Bool
unfolding in_net
in_range net ip = in_net net.addr ip net.prefix

-- `s.split_once('/')`
split_once : List ℕ → Option (List ℕ × List ℕ)
split_once [] = none
split_once (c ∷ cs) =
    let rest = split_once cs in
    if c == b'/'
    then some ([], cs)
    else elim rest [ none ↦ none | some (ip, len) ↦ some (c ∷ ip, len) ]

-- `str::parse::<u8>`
parse_u8 : List ℕ → Option ℕ
parse_u8 cs = and_then (parse_u128 cs) (λ n. if ltb n 256 then some n else none)

cidr_of : Option IpAddr → Option ℕ → Option IpNet
cidr_of (some addr) (some prefix) =
    if leb prefix (width addr) then some (record { addr = addr; prefix = prefix }) else none
cidr_of _ _ = none

unfoldable pub parse_cidr : (List ℕ → Option IpAddr) → String → Option IpNet
unfolding split_once parse_u8 cidr_of
parse_cidr parse_ip s = elim (split_once (codes s)) [
  | none ↦ none
  | some (ip, len) ↦ cidr_of (parse_ip (trim ip)) (parse_u8 (trim len))
]

-- `allowed.iter().any(|net| net.contains(peer.ip()))`
unfoldable pub admits : List IpNet → IpAddr → Bool
unfolding in_range
admits allowed peer = any (λ net. in_range net peer) allowed

-- `accept_from`: the connections that arrive, in order, until one comes from an allowed address.
unfoldable pub accept_from : List IpNet → List IpAddr → Option IpAddr
accept_from allowed [] = none
accept_from allowed (peer ∷ peers) =
    let rest = accept_from allowed peers in if admits allowed peer then some peer else rest
