-- ===== src/Controller/Placement.antt =====
-- src/controller/placement.rs: the part of pod placement that a target selection honours.
use zfs_evacuation_controlle.Base.{
  ℕ, ◌+◌, ◌-◌, ◌^◌, String, Bool, true, false, not, ◌&&◌, ◌||◌, Option, none, some, List, [], ◌∷◌,
  StrMap, eqs, any, all, keep, and_then, map_option, is_some, is_some_and, unwrap_or, is_empty,
  first, lookup, ltb, leb, ◌==◌, codes, if◌then◌else◌,
}
use zfs_evacuation_controlle.Kube.{
  Node, Pod, Taint, Toleration, NodeSelectorTerm, NodeSelectorRequirement,
}
use zfs_evacuation_controlle.Controller.Quantity.{digits_value}

pub record Placement : Type 0 where
  pub node_selector : StrMap
  pub terms : List NodeSelectorTerm
  pub tolerations : List Toleration

unfoldable pub from_pod : Pod → Placement
from_pod pod = record {
  node_selector = unwrap_or [] (and_then pod.spec (λ s. s.node_selector));
  terms = unwrap_or [] (
      map_option (λ s. s.node_selector_terms)
        (and_then (and_then (and_then pod.spec (λ s. s.affinity)) (λ a. a.node_affinity))
          (λ na. na.required)));
  tolerations = unwrap_or [] (and_then pod.spec (λ s. s.tolerations));
}

-- `str::parse::<i64>`, as the distance from the least value: order is that of the integers.
signed : Bool → List ℕ → Option ℕ
signed negative [] = none
signed negative (d ∷ ds) = elim (digits_value 0 (d ∷ ds)) [
  | none ↦ none
  | some n ↦
      if negative
      then (if leb n (2 ^ 63) then some (2 ^ 63 - n) else none)
      else if ltb n (2 ^ 63)
      then some (2 ^ 63 + n)
      else none
]

parse_i64_codes : List ℕ → Option ℕ
unfolding signed
parse_i64_codes [] = none
parse_i64_codes (c ∷ cs) =
    if c == b'-'
    then signed true cs
    else if c == b'+'
    then signed false cs
    else signed false (c ∷ cs)

unfoldable pub parse_i64 : String → Option ℕ
unfolding parse_i64_codes
parse_i64 s = parse_i64_codes (codes s)

-- `Gt` and `Lt`: both sides must be numbers.
compare_bound : Bool → Option ℕ → Option ℕ → Bool
compare_bound greater (some v) (some bound) = if greater then ltb bound v else ltb v bound
compare_bound greater _ _ = false

unfoldable pub requirement_matches : NodeSelectorRequirement → Option String → Bool
unfolding compare_bound
requirement_matches req value =
    let values = unwrap_or [] req.values in
    let bounds = λ (greater : Bool).
      compare_bound greater (and_then value parse_i64) (and_then (first values) parse_i64) in
    if eqs req.operator "In"
    then is_some_and (λ v. any (λ x. eqs x v) values) value
    else if eqs req.operator "NotIn"
    then not (is_some_and (λ v. any (λ x. eqs x v) values) value)
    else if eqs req.operator "Exists"
    then is_some value
    else if eqs req.operator "DoesNotExist"
    then not (is_some value)
    else if eqs req.operator "Gt"
    then bounds true
    else if eqs req.operator "Lt"
    then bounds false
    else true

unfoldable pub term_matches : NodeSelectorTerm → Node → Bool
term_matches term node =
    let exprs = unwrap_or [] term.match_expressions in
    let fields = unwrap_or [] term.match_fields in
    if is_empty exprs && is_empty fields
    then false
    else all (λ e. requirement_matches e (lookup e.key node.metadata.labels)) exprs
      && all
          (λ f.
            requirement_matches f
              (if eqs f.key "metadata.name" then some node.metadata.name else none))
          fields

unfoldable pub tolerates : Toleration → Taint → Bool
tolerates tol taint =
    let exists_op = is_some_and (λ o. eqs o "Exists") tol.operator in
    let key_ok : Bool = elim tol.key [
      | none ↦ exists_op
      | some k ↦ if eqs k "" then exists_op else eqs k taint.key
    ] in
    let effect_ok : Bool = elim tol.effect [
      | none ↦ true
      | some e ↦ if eqs e "" then true else eqs e taint.effect
    ] in
    let value_ok = exists_op || eqs (unwrap_or "" tol.value) (unwrap_or "" taint.value) in
    key_ok && (effect_ok && value_ok)

-- A label of the node's selector that the node does not have.
abbrev selector_misses : StrMap → StrMap → Bool
selector_misses labels = any (λ kv. not (is_some_and (λ v. eqs v kv.1) (lookup kv.0 labels)))

abbrev pub is_hard : Taint → Bool
is_hard t = eqs t.effect "NoSchedule" || eqs t.effect "NoExecute"

unfoldable pub admits : Placement → Node → Bool
admits p node =
    if selector_misses node.metadata.labels p.node_selector
    then false
    else if not (is_empty p.terms) && not (any (λ t. term_matches t node) p.terms)
    then false
    else all (λ t. any (λ tol. tolerates tol t) p.tolerations)
        (keep is_hard (unwrap_or [] (and_then node.spec (λ s. s.taints))))
