-- ===== src/Behaviour/Selection/Choice.antt =====
-- src/controller/target.rs, `select_target`: its calls, and the choice of what they have read.
use zfs_evacuation_controlle.Base.{
  String, Option, none, some, List, ◌≡◌, refl, sym, ap, ◌∙◌, subst, first, option_elim, and_then,
  unwrap_or, lookup,
}
use zfs_evacuation_controlle.Kube.{StorageClass, TopologyTerm}
use zfs_evacuation_controlle.Crd.Openebs.{ZfsNode}
use zfs_evacuation_controlle.Crd.Evacuation.{TargetInfo}
use zfs_evacuation_controlle.Effect.{
  M, ret, ask, lift, ◌>>=◌, Call, Value, Answer, ok, err, list_nodes, list_evacuations,
  list_zfs_nodes, get_storage_class, Safe, Safe-bind, Safe-weaken, Outcome, done, raised,
}
use zfs_evacuation_controlle.Controller.Context.{Ctx}
use zfs_evacuation_controlle.Behaviour.MostFree.{Best, most_free_first-Best}
use zfs_evacuation_controlle.Controller.Target.{
  Selection, judge_all, most_free_first, choose, select_target, SelectionInput, pool_component,
  sc_poolname, allowed_node_ids, allowed_in, resolve_dest_poolname,
}
use zfs_evacuation_controlle.Behaviour.Rivals.{judge_all-found}
use zfs_evacuation_controlle.Behaviour.Eligible.{judge_all-Eligible}
use zfs_evacuation_controlle.Behaviour.Topologies.{node_ids, node_ids_of, Limits, allowed_in_lem}
use zfs_evacuation_controlle.Behaviour.Selection.{
  Chosen, Readings, nothing_read, reading, readings, class_name, read_once, class_of, poolname_of,
  Decided,
}

module _ (ctx : Ctx) where
  -- The choice reads nothing.
  abbrev ChosenOr :
      Selection → List ZfsNode → String → Readings → Readings → Outcome TargetInfo → Type 0
  ChosenOr s zns dest_pool before r (done t) =
      (r ≡ before) × (t.pool ≡ dest_pool) × Chosen ctx s zns dest_pool t
  ChosenOr s zns dest_pool before r (raised e) = Unit

  choose-Chosen :
      (s : Selection) (zns : List ZfsNode) (dest_pool : String) (r : Readings)
      → Safe readings (ChosenOr s zns dest_pool r) r (choose s dest_pool (judge_all ctx s zns))
  unfolding choose
  choose-Chosen s zns dest_pool r =
      option_elim (Safe readings (ChosenOr s zns dest_pool r) r)
        (first (most_free_first (judge_all ctx s zns).0)) _ _ (λ _. tt)
        λ c e.
          let best = subst (Best (judge_all ctx s zns).0) e (most_free_first-Best _) in
          let eligible = judge_all-Eligible ctx s zns c best.0 in
          (
            refl,
            refl,
            record {
              candidate = c;
              volume_node = eligible.0;
              listed = eligible.1;
              eligible = eligible.2;
              node = refl;
              node_id = refl;
              pool = refl;
              most_free =
                  λ zn pool free m rival. best.1 _ (judge_all-found ctx s zns zn pool free rival m);
            },
          )

in_pool :
    (ctx : Ctx) (s : Selection) (zns : List ZfsNode) (dest_pool : String) (t : TargetInfo)
    → t.pool ≡ dest_pool
    → Chosen ctx s zns dest_pool t
    → Chosen ctx s zns t.pool t
in_pool ctx s zns dest_pool t e h = subst (λ p. Chosen ctx s zns p t) (sym e) h

own_lem :
    (own anchor : Option String) (n : String)
    → own ≡ some n
    → elim own [ none ↦ anchor | some m ↦ some m ] ≡ some n
own_lem own anchor n e = rw e refl

anchor_lem :
    (own anchor : Option String)
    → own ≡ none
    → elim own [ none ↦ anchor | some m ↦ some m ] ≡ anchor
anchor_lem own anchor e = rw e refl

resolved_lem :
    (own sc : Option String) (source : String)
    → (resolve_dest_poolname own sc source).0 ≡ unwrap_or (unwrap_or source sc) own
unfolding resolve_dest_poolname
resolved_lem (some p) sc source = refl
resolved_lem none (some p) source = refl
resolved_lem none none source = refl

abbrev pub DecidedOr : Ctx → SelectionInput → Readings → Outcome TargetInfo → Type 0
DecidedOr ctx input r (done t) = Decided ctx input r t
DecidedOr ctx input r (raised e) = Unit

module _ (ctx : Ctx) (input : SelectionInput) where
  answered :
      (r : Readings) (c : Call) (f : Value c → M TargetInfo)
      → ((a : Value c) → Safe readings (DecidedOr ctx input) (reading r c (ok a)) (f a))
      → Safe readings (DecidedOr ctx input) r (ask c >>= f)
  answered r c f go = (tt, by_answer)
    where
      by_answer :
          (x : Answer (Value c))
          → Safe readings (DecidedOr ctx input) (reading r c x) (lift x >>= f)
      by_answer (ok a) = go a
      by_answer (err e) = tt

  pool_read :
      (r : Readings) (f : Option String → M TargetInfo)
      → ((sc : Option StorageClass)
          → Safe readings
              (DecidedOr ctx input)
              (record r { classes = read_once (class_name input) sc r.classes })
              (f (poolname_of (class_of (class_name input) sc))))
      → Safe readings (DecidedOr ctx input) r (sc_poolname input.pv >>= f)
  unfolding sc_poolname
  pool_read r f go = by_name (class_name input) go
    where
      by_name :
          (name : Option String)
          → ((sc : Option StorageClass)
              → Safe readings
                  (DecidedOr ctx input)
                  (record r { classes = read_once name sc r.classes })
                  (f (poolname_of (class_of name sc))))
          → Safe readings (DecidedOr ctx input) r (
              (elim name [
                | none ↦ ret none
                | some n ↦ do
                  sc ← ask (get_storage_class n)
                  ret (and_then sc (λ c. and_then c.parameters (λ p. lookup "poolname" p)))
              ])
              >>= f)
      by_name none go' = go' none
      by_name (some n) go' = (tt, by_answer)
        where
          by_answer :
              (x : Answer (Option StorageClass))
              → Safe readings (DecidedOr ctx input) (reading r (get_storage_class n) x) (
                  (lift x >>= λ sc.
                  ret (and_then sc (λ c. and_then c.parameters (λ p. lookup "poolname" p))))
                  >>= f)
          by_answer (ok sc) = go' sc
          by_answer (err e) = tt

  -- The terms of a class, where it has any.
  limited :
      (r : Readings) (name : String) (o : Option (List TopologyTerm))
      (f : Option (List String) → M TargetInfo)
      → ((ids : Option (List String))
          → ids ≡ elim o [ none ↦ none | some ts ↦ node_ids ts ]
          → Safe readings (DecidedOr ctx input) r (f ids))
      → Safe readings
          (DecidedOr ctx input)
          r
          (elim o [ none ↦ ret none | some ts ↦ allowed_in name ts ] >>= f)
  limited r name none f go = go none refl
  limited r name (some ts) f go =
      Safe-bind readings (Limits readings r ts) (DecidedOr ctx input) r _ f
        (allowed_in_lem readings r name ts)
        (λ r' ids h.
          subst (λ x. Safe readings (DecidedOr ctx input) x (f ids)) (sym h.0) (go ids h.1))
        (λ _ _ _. tt)

  topologies_read :
      (r : Readings) (f : Option (List String) → M TargetInfo)
      → ((sc : Option StorageClass) (ids : Option (List String))
          → ids ≡ node_ids_of (class_of (class_name input) sc)
          → Safe readings
              (DecidedOr ctx input)
              (record r { classes = read_once (class_name input) sc r.classes })
              (f ids))
      → Safe readings (DecidedOr ctx input) r (allowed_node_ids input.pv >>= f)
  unfolding allowed_node_ids
  topologies_read r f go = by_name (class_name input) go
    where
      by_name :
          (name : Option String)
          → ((sc : Option StorageClass) (ids : Option (List String))
              → ids ≡ node_ids_of (class_of name sc)
              → Safe readings
                  (DecidedOr ctx input)
                  (record r { classes = read_once name sc r.classes })
                  (f ids))
          → Safe readings (DecidedOr ctx input) r (
              (elim name [
                | none ↦ ret none
                | some n ↦ do
                  sc ← ask (get_storage_class n)
                  elim (and_then sc (λ c. c.allowed_topologies)) [
                    | none ↦ ret none
                    | some topos ↦ allowed_in n topos
                  ]
              ])
              >>= f)
      by_name none go' = go' none none refl
      by_name (some n) go' = (tt, by_answer)
        where
          by_answer :
              (x : Answer (Option StorageClass))
              → Safe readings (DecidedOr ctx input) (reading r (get_storage_class n) x) (
                  (lift x >>= λ sc. elim (and_then sc (λ c. c.allowed_topologies)) [
                    | none ↦ ret none
                    | some topos ↦ allowed_in n topos
                  ])
                  >>= f)
          by_answer (ok none) = go' none none refl
          by_answer (ok (some sc)) = limited _ n sc.allowed_topologies f (go' (some sc))
          by_answer (err e) = tt

  -- Whatever the server answers, the target that is selected is decided by what was read: the listed
  -- Nodes, evacuations and ZFSNodes, and the PV's storage class, read for the pool and then for the
  -- topologies. The pool is the input's own, else the class's poolname, else the source's. The node
  -- is one of the listed ZFSNodes, not the source; it matches the input's target node, else the
  -- anchor, and is among the values of the class's openebs.io/nodeid expressions, where there are
  -- any; its Node is ready, untainted, receives no other evacuation and admits the consumer; and
  -- its zpool has at least the need free after the reservations of the evacuations listed, and no
  -- listed node and pool that pass the same tests have more.
  pub select_target-Decided :
      Safe readings (DecidedOr ctx input) nothing_read (select_target ctx input)
  unfolding select_target
  select_target-Decided = answered _ list_nodes _ λ nodes. answered _ list_evacuations _ λ evacs.
      pool_read _ _ λ for_pool. topologies_read _ _ λ for_topologies ids allowed.
        answered _ list_zfs_nodes _ λ zns.
          Safe-weaken readings (ChosenOr ctx _ zns _ _) (DecidedOr ctx input) _ _
            (λ r. elim [
              | done t ↦ λ h. record {
                evacuations = evacs;
                zfs_nodes = zns;
                for_pool = for_pool;
                for_topologies = for_topologies;
                selection = _;
                nodes_read = ap (λ x. x.nodes) h.0;
                evacuations_read = ap (λ x. x.evacuations) h.0;
                zfs_nodes_read = ap (λ x. x.zfs_nodes) h.0;
                classes_read = ap (λ x. x.classes) h.0;
                of_input = refl;
                reserved = refl;
                allowed = allowed;
                own_target = λ n e. own_lem input.spec.target_node input.anchor n e;
                anchored = λ e. anchor_lem input.spec.target_node input.anchor e;
                need = refl;
                wanted = ap pool_component (sym h.1);
                pool = h.1 ∙ resolved_lem input.spec.target_pool _ input.source_pool;
                chosen = in_pool ctx _ zns _ t h.1 h.2;
              }
              | raised e ↦ λ _. tt
            ])
            (choose-Chosen ctx _ zns _ _)
