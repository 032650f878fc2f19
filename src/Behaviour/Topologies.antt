-- ===== src/Behaviour/Topologies.antt =====
-- src/controller/target.rs, the allowedTopologies of a storage class in `select_target`.
use mathlib.Core.List.{append-nil, append_assoc}
use zfs_evacuation_controlle.Base.{
  String, Bool, true, false, not, ◌||◌, Option, none, some, List, [], ◌∷◌, ◌++◌, ◌≡◌, refl, ap, sym,
  ◌∙◌, arith, eqs, keep, is_empty, unwrap_or, ◌<>◌, if◌then◌else◌,
}
use zfs_evacuation_controlle.Kube.{StorageClass, TopologyTerm, TopologyExpr}
use zfs_evacuation_controlle.Effect.{ret, throw, other, Monitor, Safe, Outcome, done, raised}
use zfs_evacuation_controlle.Controller.Target.{constrain, constrain_terms, allowed_in}

-- The expressions on the node id, in all terms.
abbrev pub on_node_id : List TopologyExpr → List TopologyExpr
on_node_id es = keep (λ e. eqs e.key "openebs.io/nodeid") es

abbrev pub expressions : List TopologyTerm → List TopologyExpr
expressions [] = []
expressions (t ∷ ts) = on_node_id (unwrap_or [] t.match_label_expressions) ++ expressions ts

abbrev pub all_values : List TopologyExpr → List String
all_values [] = []
all_values (e ∷ es) = e.values ++ all_values es

-- The node ids that the terms allow: all values together, or no limit without an expression.
abbrev pub node_ids : List TopologyTerm → Option (List String)
node_ids ts = if is_empty (expressions ts) then none else some (all_values (expressions ts))

abbrev pub node_ids_of : Option StorageClass → Option (List String)
node_ids_of none = none
node_ids_of (some sc) = elim sc.allowed_topologies [ none ↦ none | some ts ↦ node_ids ts ]

abbrev found : Bool × List String → List TopologyExpr → Bool × List String
found acc es = (acc.0 || not (is_empty es), acc.1 ++ all_values es)

pair_lem :
    (a b : Bool) (xs ys : List String)
    → a ≡ b
    → xs ≡ ys
    → ◌≡◌ {A = Bool × List String} (a, xs) (b, ys)
pair_lem a b xs ys p q = cc

found-nil : (acc : Bool × List String) → acc ≡ found acc []
found-nil acc =
    pair_lem acc.0 (acc.0 || false) acc.1 (acc.1 ++ []) (ground arith) (sym (append-nil acc.1))

all_values-append :
    (es fs : List TopologyExpr) → all_values (es ++ fs) ≡ all_values es ++ all_values fs
all_values-append [] fs = refl
all_values-append (e ∷ es) fs =
    rw (all_values-append es fs) (sym (append_assoc e.values (all_values es) (all_values fs)))

any_more :
    (b : Bool) (es fs : List TopologyExpr)
    → ((b || not (is_empty es)) || not (is_empty fs)) ≡ (b || not (is_empty (es ++ fs)))
any_more b [] fs = ground arith
any_more b (e ∷ es) fs = ground arith

found-append :
    (acc : Bool × List String) (es fs : List TopologyExpr)
    → found (found acc es) fs ≡ found acc (es ++ fs)
found-append acc es fs = pair_lem _ _ _ _ (any_more acc.0 es fs) (
    append_assoc acc.1 (all_values es) (all_values fs)
    ∙ ap (λ v. acc.1 ++ v) (sym (all_values-append es fs)))

constrain_lem :
    (es : List TopologyExpr) (acc : Bool × List String)
    → constrain es acc ≡ found acc (on_node_id es)
unfolding constrain
constrain_lem [] acc = found-nil acc
constrain_lem (e ∷ es) acc = by_key (eqs e.key "openebs.io/nodeid") (constrain_lem es)
  where
    by_key :
        (b : Bool)
        → ((acc' : Bool × List String) → constrain es acc' ≡ found acc' (on_node_id es))
        → constrain es (if b then (true, acc.1 ++ e.values) else acc)
          ≡ found acc (if b then e ∷ on_node_id es else on_node_id es)
    by_key false rest = rest acc
    by_key true rest =
        rest (true, acc.1 ++ e.values)
        ∙ pair_lem _ _ _ _ (ground arith) (append_assoc acc.1 e.values (all_values (on_node_id es)))

constrain_terms_lem :
    (ts : List TopologyTerm) (acc : Bool × List String)
    → constrain_terms ts acc ≡ found acc (expressions ts)
unfolding constrain_terms
constrain_terms_lem [] acc = found-nil acc
constrain_terms_lem (t ∷ ts) acc =
    constrain_terms_lem ts _
    ∙ ap (λ x. found x (expressions ts))
        (constrain_lem (unwrap_or [] t.match_label_expressions) acc)
    ∙ found-append acc _ (expressions ts)

module _ (m : Monitor) (s : m.State) where
  -- No call is made, and what is returned is what the terms allow.
  abbrev pub Limits : List TopologyTerm → m.State → Outcome (Option (List String)) → Type 0
  Limits ts s' (done ids) = (s' ≡ s) × (ids ≡ node_ids ts)
  Limits ts s' (raised e) = Unit

  pub allowed_in_lem :
      (name : String) (ts : List TopologyTerm) → Safe m (Limits ts) s (allowed_in name ts)
  unfolding allowed_in
  allowed_in_lem name ts =
      by_found (constrain_terms ts (false, [])) (constrain_terms_lem ts (false, []))
    where
      by_found :
          (acc : Bool × List String)
          → acc ≡ found (false, []) (expressions ts)
          → Safe m (Limits ts) s (
              if not acc.0
              then ret none
              else if is_empty acc.1
              then throw
                  (other ("StorageClass " <> name <> " allowedTopologies excludes every node"))
              else ret (some acc.1))
      by_found (false, ids) e =
          let there : is_empty (expressions ts) ≡ true = let b = ap (λ x. x.0) e in ground arith in
          (refl, rw there refl)
      by_found (true, []) e = tt
      by_found (true, id ∷ ids) e =
          let there : is_empty (expressions ts) ≡ false = let b = ap (λ x. x.0) e in ground arith in
          (refl, rw there (ap some (ap (λ x. x.1) e)))
