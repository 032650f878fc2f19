-- ===== src/Tests/Creation.antt =====
-- A poll that meets an annotated PV, after another whose reads fail.
use zfs_evacuation_controlle.Base.{
  ℕ, List, [], ◌∷◌, some, none, refl, insert, lookup, eqs, if◌then◌else◌, Memᴰ, String, true, ◌≡◌,
}
use zfs_evacuation_controlle.Kube.{PersistentVolume}
use zfs_evacuation_controlle.Crd.Evacuation.{evacuate_annotation, annotation, when_idle}
use zfs_evacuation_controlle.Effect.{
  Call, Value, Answer, ok, err, transport, list_pvs, get_pv, get_evacuation,
}
use zfs_evacuation_controlle.Controller.Trigger.{tick, new_evacuation, wants_evacuation}
use zfs_evacuation_controlle.Behaviour.Obliging.{Surroundings}
use zfs_evacuation_controlle.Behaviour.Creation.Made.{IsMade, tick_creates}
use zfs_evacuation_controlle.Tests.Samples.{ctx, old_pv}
use zfs_evacuation_controlle.Tests.Obliging.{value_of, reply_of}

abbrev wanting : String → PersistentVolume
wanting name =
    let m = old_pv.metadata in
    record old_pv {
      metadata = record m {
        name = name;
        annotations = some (insert evacuate_annotation "true" []);
      };
    }

abbrev listing : List PersistentVolume
listing = wanting "pv-0" ∷ wanting "pv-1" ∷ []

abbrev polled_answer : ℕ → (c : Call) → Answer (Value c)
polled_answer n list_pvs = ok listing
polled_answer n (get_pv name) = ok (some (wanting name))
polled_answer n (get_evacuation name) = if eqs name "pv-1" then ok none else err transport
polled_answer n c = ok (value_of c)

abbrev polled : Surroundings
polled = record { answer = polled_answer; reply = λ n q. reply_of q }

asked_for : wants_evacuation (wanting "pv-1") ≡ true
unfolding wants_evacuation lookup insert
asked_for = refl

tick_creates_example :
    IsMade polled (Call.create_evacuation (new_evacuation "pv-1" annotation when_idle)) 0 (tick ctx)
tick_creates_example =
    tick_creates polled (wanting "pv-1") (wanting "pv-1") (λ n. refl) (λ n. refl) asked_for
      asked_for ctx listing (λ n. refl) (Memᴰ.tail (Memᴰ.head refl))
