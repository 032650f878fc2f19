-- ===== src/Behaviour/Unwinding/Performed.antt =====
-- src/controller/abort.rs, `run`: the parts that perform a duty, so that they return only once it is
-- shown as done.
use zfs_evacuation_controlle.Base.{
  String, Bool, true, false, not, ◌&&◌, ◌||◌, Option, none, some, List, [], ◌∷◌, ◌≡◌, refl, sym, ap,
  ◌∙◌, arith, eqs, eqs→eq, eq→eqs, contains, is_some_and, unwrap_or, if◌then◌else◌,
}
use zfs_evacuation_controlle.Kube.{PersistentVolume}
use zfs_evacuation_controlle.Crd.Evacuation.{
  Evacuation, EvacuationStatus, SourceInfo, guard_finalizer,
}
use zfs_evacuation_controlle.Effect.{
  ret, ok, err, Kind, Safe-known, Safe-if, Safe-bind, Outcome, done, raised, ask,
  patch_reclaim_policy, patch_finalizers,
}
use zfs_evacuation_controlle.Controller.PvSwap.{has_uid}
use zfs_evacuation_controlle.Controller.Steps.{set_finalizers, same_list, dropping}
use zfs_evacuation_controlle.Controller.Abort.{
  restore_policy_of, restore_policy, drop_guard, release_source,
}
use zfs_evacuation_controlle.Behaviour.Unwinding.{
  policy_back, unguarded, duty_watch, Performed, Performs, middle, done_already,
}
use zfs_evacuation_controlle.Behaviour.Unwinding.Parts.{honor_deletion-IsMiddle, strip-IsMiddle}

pub or_left : (s b : Bool) → s ≡ true → (s || b) ≡ true
or_left s b h = ground arith

pub or_right : (s b : Bool) → b ≡ true → (s || b) ≡ true
or_right s b h = ground arith

contains-dropping : (f : String) (xs : List String) → contains f (dropping f xs) ≡ false
contains-dropping f [] = refl
contains-dropping f (x ∷ xs) = ground (arith, contains-dropping f xs)

same_list_lem : (xs ys : List String) → same_list xs ys ≡ true → xs ≡ ys
same_list_lem [] [] h = refl
same_list_lem [] (y ∷ ys) h = cc
same_list_lem (x ∷ xs) [] h = cc
same_list_lem (x ∷ xs) (y ∷ ys) h = ground (arith, same_list_lem xs ys, eqs→eq x y)

module _ (evac : Evacuation) where
  module _ (source : SourceInfo) (orig : String) where
    restore_policy_of-Performs :
        (s : Bool) → Performs evac (policy_back source orig) s (restore_policy_of evac source orig)
    unfolding restore_policy_of
    restore_policy_of-Performs s = ((λ e. cc), elim [ ok pv ↦ by_uid pv _ refl | err e ↦ tt ])
      where
        name_same : eqs evac.spec.pv_name evac.spec.pv_name ≡ true
        name_same = eq→eqs evac.spec.pv_name evac.spec.pv_name refl

        orig_same : eqs orig orig ≡ true
        orig_same = eq→eqs orig orig refl

        by_uid :
            (pv : Option PersistentVolume) (b : Bool)
            → is_some_and (λ p. has_uid source.pv_uid p.metadata) pv ≡ b
            → Performs evac
                (policy_back source orig)
                (s
                  || (eqs evac.spec.pv_name evac.spec.pv_name
                      && not (is_some_and (λ p. has_uid source.pv_uid p.metadata) pv)))
                (if is_some_and (λ p. has_uid source.pv_uid p.metadata) pv
                  then ask (patch_reclaim_policy evac.spec.pv_name orig)
                  else ret tt)
        by_uid pv true e = rw e (
          (λ x. cc),
          elim [
            | ok u ↦
                or_right _ (eqs evac.spec.pv_name evac.spec.pv_name && eqs orig orig)
                  (rw (name_same, orig_same) refl)
            | err x ↦ tt
          ],
        )
        by_uid pv false e = rw (e, name_same) (or_right s true refl)

    pub restore_policy-Performs :
        (st : EvacuationStatus) (s : Bool)
        → st.source ≡ some source
        → st.original_reclaim_policy ≡ some orig
        → Performs evac (policy_back source orig) s (restore_policy evac st)
    unfolding restore_policy
    restore_policy-Performs st s e p =
        Safe-known (duty_watch evac (policy_back source orig))
          (Performed evac (policy_back source orig)) s st.source source _ _ e
          (Safe-known (duty_watch evac (policy_back source orig))
            (Performed evac (policy_back source orig)) s st.original_reclaim_policy orig _ _ p
            (restore_policy_of-Performs s))

  module _ (source : SourceInfo) where
    guard_dropped-Performs :
        (s : Bool)
        → Performs evac
            (unguarded source)
            s
            (set_finalizers Kind.zfs_volume source.volume_handle (dropping guard_finalizer))
    unfolding set_finalizers
    guard_dropped-Performs s = (
      (λ e. cc),
      elim [
        | ok none ↦ or_right s _ named
        | ok (some meta) ↦ by_list (unwrap_or [] meta.finalizers)
        | err e ↦ tt
      ],
    )
      where
        named : eqs source.volume_handle source.volume_handle ≡ true
        named = eq→eqs source.volume_handle source.volume_handle refl

        by_list :
            (cur : List String)
            → Performs evac
                (unguarded source)
                (s
                  || (eqs source.volume_handle source.volume_handle
                      && not (contains guard_finalizer cur)))
                (if same_list (dropping guard_finalizer cur) cur
                  then ret tt
                  else ask (
                      patch_finalizers Kind.zfs_volume source.volume_handle
                        (dropping guard_finalizer cur)))
        by_list cur =
            Safe-if (duty_watch evac (unguarded source)) (Performed evac (unguarded source))
              (s
                || (eqs source.volume_handle source.volume_handle
                    && not (contains guard_finalizer cur)))
              (same_list (dropping guard_finalizer cur) cur) _ _
              (λ same.
                let gone : contains guard_finalizer cur ≡ false =
                  ap (contains guard_finalizer) (sym (same_list_lem _ cur same))
                  ∙ contains-dropping guard_finalizer cur in
                or_right s _ (rw (named, gone) refl))
              (λ _. (
                (λ e. cc),
                elim [
                  | ok u ↦
                      or_right _
                        (eqs source.volume_handle source.volume_handle
                          && not (contains guard_finalizer (dropping guard_finalizer cur)))
                        (rw (named, contains-dropping guard_finalizer cur) refl)
                  | err e ↦ tt
                ],
              ))

    pub release_source-Performs :
        (st : EvacuationStatus) (s : Bool)
        → st.source ≡ some source
        → Performs evac (unguarded source) s (release_source evac st)
    unfolding release_source drop_guard
    release_source-Performs st s e =
        Safe-known (duty_watch evac (unguarded source)) (Performed evac (unguarded source)) s
          st.source source _ _ e
          (middle evac (unguarded source) (Performed evac (unguarded source)) s _ _
            (honor_deletion-IsMiddle evac st source)
            (λ s' u _.
              Safe-bind (duty_watch evac (unguarded source)) (Performed evac (unguarded source))
                (Performed evac (unguarded source)) s' _ _ (guard_dropped-Performs s')
                (λ s'' u at.
                  done_already evac (unguarded source) (Performed evac (unguarded source)) s'' _
                    (strip-IsMiddle Kind.zfs_volume source.volume_handle source.node_id refl) at
                    performed)
                (λ _ _ _. tt))
            (λ _ _. tt))
      where
        performed :
            (s' : Bool) (o : Outcome (Unit {0}))
            → s' ≡ true
            → Performed evac (unguarded source) s' o
        performed s' (done u) at = at
        performed s' (raised x) at = tt
