-- ===== src/Behaviour/Eligible.antt =====
-- src/controller/target.rs, `judge`: which nodes and pools can be a target.
use zfs_evacuation_controlle.Base.{
  ℕ, ◌-◌, ◌≤◌, String, true, false, not, none, List, [], ◌∷◌, Memᴰ, mem-append, mem_single, mem_nil,
  ◌≡◌, refl, sym, subst, arith, eqs, eqs→eq, find, find_lem, contains, leb, unwrap_or, and_then,
  is_some_and, if_elim, option_elim,
}
use zfs_evacuation_controlle.Kube.{Node}
use zfs_evacuation_controlle.Crd.Openebs.{ZfsNode, ZfsPool}
use zfs_evacuation_controlle.Controller.Context.{Ctx}
use zfs_evacuation_controlle.Controller.Quantity.{parse_quantity_or_bytes}
use zfs_evacuation_controlle.Controller.Nodes.{node_id_of, node_is_ready, node_has_evacuate_taint}
use zfs_evacuation_controlle.Controller.Placement.{admits}
use zfs_evacuation_controlle.Controller.Target.{
  Selection, Candidate, Verdicts, matches_explicit, judge_pool, judge_pools, reject_reason,
  has_pool, judge_node, judge, judge_all,
}

-- A node that the tests do not reject.
pub record Fit (ctx : Ctx) (s : Selection) (node_id : String) (node : Node) : Type 0 where
  pub ready : node_is_ready node ≡ true
  pub untainted : node_has_evacuate_taint node ctx.cfg.taint_key ≡ false
  pub idle : contains node_id s.ledger.busy_targets ≡ false
  pub admitted : is_some_and (λ p. not (admits p node)) s.input.placement ≡ false

-- A pool with the wanted name and room for the need, after the reservations.
pub record Roomy (ctx : Ctx) (s : Selection) (node_id : String) (pool : ZfsPool) (free : ℕ)
    : Type 0 where
  pub wanted : pool.name ≡ s.wanted_component
  pub room :
      free
      ≡ unwrap_or 0 (and_then pool.free (parse_quantity_or_bytes ctx.libs))
        - s.ledger.reserved node_id pool.name
  pub enough : s.need ≤ free

-- What every candidate is.
pub record Eligible (ctx : Ctx) (s : Selection) (zn : ZfsNode) (c : Candidate) : Type 0 where
  pub node : Node
  pub pool : ZfsPool
  pub node_listed : Memᴰ node s.nodes
  pub pool_listed : Memᴰ pool zn.pools
  pub id : c.node_id ≡ zn.metadata.name
  pub same_id : node_id_of node ≡ zn.metadata.name
  pub name : c.node ≡ node.metadata.name
  pub elsewhere : eqs zn.metadata.name s.input.source_node_id ≡ false
  pub explicit : matches_explicit s.nodes zn.metadata.name s.explicit ≡ true
  pub allowed : is_some_and (λ ids. not (contains zn.metadata.name ids)) s.allowed_ids ≡ false
  pub fit : Fit ctx s zn.metadata.name node
  pub roomy : Roomy ctx s zn.metadata.name pool c.free

module _ (ctx : Ctx) (s : Selection) where
  reject_reason-Fit :
      (node_id : String) (node : Node)
      → reject_reason ctx s node_id node ≡ none
      → Fit ctx s node_id node
  unfolding reject_reason
  reject_reason-Fit node_id node h = record {
    ready = ground arith;
    untainted = ground arith;
    idle = ground arith;
    admitted = ground arith;
  }

  -- What a pool's candidate is, of the node that is judged.
  abbrev Pooled : Node → String → ZfsPool → Candidate → Type 0
  Pooled node node_id p c =
      (c.node_id ≡ node_id) × (c.node ≡ node.metadata.name) × Roomy ctx s node_id p c.free

  judge_pool_lem :
      (node : Node) (node_id : String) (p : ZfsPool) (c : Candidate)
      → p.name ≡ s.wanted_component
      → Memᴰ c (judge_pool ctx s node node_id p).0
      → Pooled node node_id p c
  unfolding judge_pool
  judge_pool_lem node node_id p c w =
      let free =
        unwrap_or 0 (and_then p.free (parse_quantity_or_bytes ctx.libs))
        - s.ledger.reserved node_id p.name in
      if_elim {A = Verdicts} (λ v. Memᴰ c v.0 → Pooled node node_id p c) (leb s.need free) _ _
        (λ h m.
          subst (Pooled node node_id p) (sym (mem_single c _ m))
            (refl, refl, record { wanted = w; room = refl; enough = ground arith }))
        (λ h m. mem_nil (Pooled node node_id p c) c m)

  judge_pools_lem :
      (node : Node) (node_id : String) (ps : List ZfsPool) (c : Candidate)
      → Memᴰ c (judge_pools ctx s node node_id ps).0
      → (p : ZfsPool) × Memᴰ p ps × Pooled node node_id p c
  unfolding judge_pools
  judge_pools_lem node node_id [] c = λ m. elim m [ ]
  judge_pools_lem node node_id (p ∷ ps) c =
      let here = judge_pool_lem node node_id p c in
      let later = judge_pools_lem node node_id ps c in
      if_elim {A = Verdicts}
        (λ v. Memᴰ c v.0 → (q : ZfsPool) × Memᴰ q (p ∷ ps) × Pooled node node_id q c)
        (eqs p.name s.wanted_component) _ _
        (λ w m.
          mem-append c (judge_pool ctx s node node_id p).0 (judge_pools ctx s node node_id ps).0
            ((q : ZfsPool) × Memᴰ q (p ∷ ps) × Pooled node node_id q c)
            (λ k. (p, Memᴰ.head refl, here (eqs→eq p.name s.wanted_component w) k))
            (λ k. let r = later k in (r.0, Memᴰ.tail r.1, r.2)) m)
        (λ _ m. let r = later m in (r.0, Memᴰ.tail r.1, r.2))

  module _ (zn : ZfsNode) (c : Candidate) where
    judge_node-Eligible :
        (node : Node)
        → Memᴰ node s.nodes
        → node_id_of node ≡ zn.metadata.name
        → eqs zn.metadata.name s.input.source_node_id ≡ false
        → matches_explicit s.nodes zn.metadata.name s.explicit ≡ true
        → is_some_and (λ ids. not (contains zn.metadata.name ids)) s.allowed_ids ≡ false
        → Memᴰ c (judge_node ctx s zn node).0
        → Eligible ctx s zn c
    unfolding judge_node
    judge_node-Eligible node listed same away expl allowed =
        option_elim {B = Verdicts} (λ v. Memᴰ c v.0 → Eligible ctx s zn c)
          (reject_reason ctx s zn.metadata.name node) _ _
          (λ passed.
            if_elim {A = Verdicts} (λ v. Memᴰ c v.0 → Eligible ctx s zn c)
              (has_pool s.wanted_component zn.pools) _ _ (λ _ m. build passed m)
              (λ _ m. build passed m))
          (λ why _ m. mem_nil (Eligible ctx s zn c) c m)
      where
        build :
            reject_reason ctx s zn.metadata.name node ≡ none
            → Memᴰ c (judge_pools ctx s node zn.metadata.name zn.pools).0
            → Eligible ctx s zn c
        build passed m =
            let r = judge_pools_lem node zn.metadata.name zn.pools c m in
            record {
              node = node;
              pool = r.0;
              node_listed = listed;
              pool_listed = r.1;
              id = r.2.0;
              same_id = same;
              name = r.2.1;
              elsewhere = away;
              explicit = expl;
              allowed = allowed;
              fit = reject_reason-Fit zn.metadata.name node passed;
              roomy = r.2.2;
            }

    abbrev Wins : Verdicts → Type 0
    Wins v = Memᴰ c v.0 → Eligible ctx s zn c

    judge-Eligible : Memᴰ c (judge ctx s zn).0 → Eligible ctx s zn c
    unfolding judge
    judge-Eligible =
        let none_of = mem_nil (Eligible ctx s zn c) c in
        if_elim {A = Verdicts} Wins (eqs zn.metadata.name s.input.source_node_id) _ _
          (λ _ m. none_of m)
          λ away.
            if_elim {A = Verdicts} Wins (not (matches_explicit s.nodes zn.metadata.name s.explicit))
              _ _ (λ _ m. none_of m)
              λ expl.
                if_elim {A = Verdicts} Wins
                  (is_some_and (λ ids. not (contains zn.metadata.name ids)) s.allowed_ids) _ _
                  (λ _ m. none_of m)
                  λ allowed.
                    option_elim {B = Verdicts} Wins
                      (find (λ n. eqs (node_id_of n) zn.metadata.name) s.nodes) _ _
                      (λ _ m. none_of m)
                      (λ node e m.
                        let found =
                          find_lem (λ n. eqs (node_id_of n) zn.metadata.name) s.nodes node e in
                        judge_node-Eligible node found.0
                          (eqs→eq (node_id_of node) zn.metadata.name found.1) away (ground arith)
                          allowed m)

  pub judge_all-Eligible :
      (zns : List ZfsNode) (c : Candidate)
      → Memᴰ c (judge_all ctx s zns).0
      → (zn : ZfsNode) × Memᴰ zn zns × Eligible ctx s zn c
  unfolding judge_all
  judge_all-Eligible [] c m = elim m [ ]
  judge_all-Eligible (zn ∷ zns) c m =
      mem-append c (judge ctx s zn).0 (judge_all ctx s zns).0
        ((z : ZfsNode) × Memᴰ z (zn ∷ zns) × Eligible ctx s z c)
        (λ k. (zn, Memᴰ.head refl, judge-Eligible zn c k))
        (λ k. let r = judge_all-Eligible zns c k in (r.0, Memᴰ.tail r.1, r.2)) m
