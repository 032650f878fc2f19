-- ===== src/Behaviour/Rivals.antt =====
-- src/controller/target.rs, `judge`: every node and pool that passes the tests is a candidate.
use mathlib.Core.List.Memᴰ.{append_left, append_right}
use zfs_evacuation_controlle.Base.{
  ℕ, ◌-◌, String, true, false, not, none, some, List, [], ◌∷◌, Memᴰ, ◌≡◌, refl, ap, subst, sym, ◌∙◌,
  if_elim, option_elim, Option, arith, eqs, eq→eqs, find, contains, leb, unwrap_or, and_then,
  is_some_and,
}
use zfs_evacuation_controlle.Kube.{Node}
use zfs_evacuation_controlle.Crd.Openebs.{ZfsNode, ZfsPool}
use zfs_evacuation_controlle.Controller.Context.{Ctx}
use zfs_evacuation_controlle.Controller.Quantity.{parse_quantity_or_bytes}
use zfs_evacuation_controlle.Controller.Nodes.{node_id_of}
use zfs_evacuation_controlle.Controller.Target.{
  Selection, Candidate, matches_explicit, judge_pool, judge_pools, reject_reason, judge_node, judge,
  judge_all, has_pool, Verdicts,
}
use zfs_evacuation_controlle.Behaviour.Eligible.{Fit, Roomy}

none_or_some : (o : Option String) (why : String) → o ≡ none → o ≡ some why → ⊥
none_or_some o why p q = cc

module _ (ctx : Ctx) (s : Selection) where
  -- A ZFSNode and a pool of it that pass every test, by the first Node of that id.
  pub record Rival (zn : ZfsNode) (pool : ZfsPool) (free : ℕ) : Type 0 where
    pub node : Node
    pub first_node : find (λ n. eqs (node_id_of n) zn.metadata.name) s.nodes ≡ some node
    pub elsewhere : eqs zn.metadata.name s.input.source_node_id ≡ false
    pub explicit : matches_explicit s.nodes zn.metadata.name s.explicit ≡ true
    pub allowed : is_some_and (λ ids. not (contains zn.metadata.name ids)) s.allowed_ids ≡ false
    pub fit : Fit ctx s zn.metadata.name node
    pub roomy : Roomy ctx s zn.metadata.name pool free
    pub pool_listed : Memᴰ pool zn.pools

  abbrev candidate_of : Node → ZfsNode → ZfsPool → ℕ → Candidate
  candidate_of node zn pool free = record {
    node = node.metadata.name;
    node_id = zn.metadata.name;
    pool = pool.name;
    free = free;
  }

  Fit-reject_reason :
      (node_id : String) (node : Node)
      → Fit ctx s node_id node
      → reject_reason ctx s node_id node ≡ none
  unfolding reject_reason
  Fit-reject_reason node_id node f = rw (f.ready, f.untainted, f.idle, f.admitted) refl

  judge_pool-found :
      (node : Node) (zn : ZfsNode) (pool : ZfsPool) (free : ℕ)
      → Roomy ctx s zn.metadata.name pool free
      → Memᴰ (candidate_of node zn pool free) (judge_pool ctx s node zn.metadata.name pool).0
  unfolding judge_pool
  judge_pool-found node zn pool free r =
      let avail =
        unwrap_or 0 (and_then pool.free (parse_quantity_or_bytes ctx.libs))
        - s.ledger.reserved zn.metadata.name pool.name in
      let room : free ≡ avail = r.room in
      let need = r.enough in
      let enough : leb s.need avail ≡ true = ground arith in
      subst
        (λ f. Memᴰ (candidate_of node zn pool f) (judge_pool ctx s node zn.metadata.name pool).0)
        (sym room) (rw enough (Memᴰ.head refl))

  judge_pools-found :
      (node : Node) (zn : ZfsNode) (pool : ZfsPool) (free : ℕ) (ps : List ZfsPool)
      → Roomy ctx s zn.metadata.name pool free
      → Memᴰ pool ps
      → Memᴰ (candidate_of node zn pool free) (judge_pools ctx s node zn.metadata.name ps).0
  unfolding judge_pools
  judge_pools-found node zn pool free [] r m = elim m [ ]
  judge_pools-found node zn pool free (p ∷ ps) r (Memᴰ.head e) =
      let wanted : eqs p.name s.wanted_component ≡ true =
        eq→eqs p.name s.wanted_component (ap (λ q. q.name) (sym e) ∙ r.wanted) in
      rw wanted (
        append_left _ (
          subst
            (λ q.
              Memᴰ (candidate_of node zn pool free) (judge_pool ctx s node zn.metadata.name q).0)
            e (judge_pool-found node zn pool free r)))
  judge_pools-found node zn pool free (p ∷ ps) r (Memᴰ.tail m) =
      let later = judge_pools-found node zn pool free ps r m in
      if_elim {A = Verdicts} (λ v. Memᴰ (candidate_of node zn pool free) v.0)
        (eqs p.name s.wanted_component) _ _ (λ _. append_right _ later) (λ _. later)

  judge_node-found :
      (node : Node) (zn : ZfsNode) (pool : ZfsPool) (free : ℕ)
      → Fit ctx s zn.metadata.name node
      → Roomy ctx s zn.metadata.name pool free
      → Memᴰ pool zn.pools
      → Memᴰ (candidate_of node zn pool free) (judge_node ctx s zn node).0
  unfolding judge_node
  judge_node-found node zn pool free f r m =
      let all = judge_pools-found node zn pool free zn.pools r m in
      let passed = Fit-reject_reason zn.metadata.name node f in
      option_elim {B = Verdicts} (λ v. Memᴰ (candidate_of node zn pool free) v.0)
        (reject_reason ctx s zn.metadata.name node) _ _
        (λ _.
          if_elim {A = Verdicts} (λ v. Memᴰ (candidate_of node zn pool free) v.0)
            (has_pool s.wanted_component zn.pools) _ _ (λ _. all) (λ _. all))
        (λ why e. elim (none_or_some (reject_reason ctx s zn.metadata.name node) why passed e) [ ])

  judge-found :
      (zn : ZfsNode) (pool : ZfsPool) (free : ℕ) (r : Rival zn pool free)
      → Memᴰ (candidate_of r.node zn pool free) (judge ctx s zn).0
  unfolding judge
  judge-found zn pool free r =
      let all = judge_node-found r.node zn pool free r.fit r.roomy r.pool_listed in
      rw (r.elsewhere, r.explicit, r.allowed, r.first_node) all

  -- Every rival is among the candidates.
  pub judge_all-found :
      (zns : List ZfsNode) (zn : ZfsNode) (pool : ZfsPool) (free : ℕ) (r : Rival zn pool free)
      → Memᴰ zn zns
      → Memᴰ (candidate_of r.node zn pool free) (judge_all ctx s zns).0
  unfolding judge_all
  judge_all-found [] zn pool free r m = elim m [ ]
  judge_all-found (x ∷ xs) zn pool free r (Memᴰ.head e) = append_left _ (
      subst (λ y. Memᴰ (candidate_of r.node zn pool free) (judge ctx s y).0) e
        (judge-found zn pool free r))
  judge_all-found (x ∷ xs) zn pool free r (Memᴰ.tail m) =
      append_right _ (judge_all-found xs zn pool free r m)
