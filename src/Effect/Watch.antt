-- ===== src/Effect/Watch.antt =====
-- What holds of a tree on every branch: a monitor watches the calls and their answers, and each
-- call has to be allowed in the state that the calls before it have led to.
use zfs_evacuation_controlle.Base.{
  String, Bool, true, false, Option, none, some, ◌≡◌, refl, sym, subst, some_inj, if◌then◌else◌,
}
use zfs_evacuation_controlle.Effect.Calls.{Call, Value, Error, Answer, ok, err}
use zfs_evacuation_controlle.Effect.Tree.{
  M, ret, throw, call, sense, lift, require, ◌>>=◌, Outcome, done, raised,
}

pub record Monitor : Type 1 where
  pub State : Type 0
  pub Allowed : State → Call → Type 0
  pub next : State → (c : Call) → Answer (Value c) → State

-- Every call is allowed, and every end of the tree meets the postcondition.
abbrev pub Safe :
    {A : Type 0} (m : Monitor) → (m.State → Outcome A → Type 0) → m.State → M A → Type 0
Safe m Post s (ret a) = Post s (done a)
Safe m Post s (throw e) = Post s (raised e)
Safe m Post s (call c k) = m.Allowed s c × ((r : _) → Safe m Post (m.next s c r) (k r))
Safe m Post s (sense q k) = (r : _) → Safe m Post s (k r)

-- The rule for a sequence: the first part's postcondition gives what the rest needs.
pub Safe-bind :
    {A B : Type 0} (m : Monitor) (Mid : m.State → Outcome A → Type 0)
    (Post : m.State → Outcome B → Type 0) (s : m.State) (t : M A) (f : A → M B)
    → Safe m Mid s t
    → ((s' : m.State) (a : A) → Mid s' (done a) → Safe m Post s' (f a))
    → ((s' : m.State) (e : Error) → Mid s' (raised e) → Post s' (raised e))
    → Safe m Post s (t >>= f)
Safe-bind m Mid Post s (ret a) f h go stop = go s a h
Safe-bind m Mid Post s (throw e) f h go stop = stop s e h
Safe-bind m Mid Post s (call c k) f h go stop =
    (h.0, λ r. Safe-bind m Mid Post (m.next s c r) (k r) f (h.1 r) go stop)
Safe-bind m Mid Post s (sense q k) f h go stop = λ r. Safe-bind m Mid Post s (k r) f (h r) go stop

-- No call is restricted: only the outcome counts.
abbrev pub unwatched : Monitor
unwatched = record { State = Unit; Allowed = λ s c. Unit; next = λ s c r. tt }

module _ {A B : Type 0} (Post : Unit {0} → Outcome B → Type 0) where
  -- Nothing is asked of what comes first.
  pub unwatched-bind :
      (t : M A) (f : A → M B)
      → ((a : A) → Safe unwatched Post tt (f a))
      → ((e : Error) → Post tt (raised e))
      → Safe unwatched Post tt (t >>= f)
  unwatched-bind (ret a) f go stop = go a
  unwatched-bind (throw e) f go stop = stop e
  unwatched-bind (call c k) f go stop = (tt, λ r. unwatched-bind (k r) f go stop)
  unwatched-bind (sense q k) f go stop = λ r. unwatched-bind (k r) f go stop

module _ {A : Type 0} (m : Monitor) (P Q : m.State → Outcome A → Type 0) where
  -- A weaker postcondition.
  pub Safe-weaken :
      (s : m.State) (t : M A)
      → ((s' : m.State) (o : Outcome A) → P s' o → Q s' o)
      → Safe m P s t
      → Safe m Q s t
  Safe-weaken s (ret a) f h = f s (done a) h
  Safe-weaken s (throw e) f h = f s (raised e) h
  Safe-weaken s (call c k) f h = (h.0, λ r. Safe-weaken (m.next s c r) (k r) f (h.1 r))
  Safe-weaken s (sense q k) f h = λ r. Safe-weaken s (k r) f (h r)

module _ {B : Type 0} (m : Monitor) (Post : m.State → Outcome B → Type 0) (s : m.State) where
  pub Safe-if :
      (b : Bool) (t u : M B)
      → (b ≡ true → Safe m Post s t)
      → (b ≡ false → Safe m Post s u)
      → Safe m Post s (if b then t else u)
  Safe-if true t u ht hu = ht refl
  Safe-if false t u ht hu = hu refl

  -- A match on an optional value.
  pub Safe-option :
      {A : Type 0} (o : Option A) (t : M B) (f : A → M B)
      → (o ≡ none → Safe m Post s t)
      → ((a : A) → o ≡ some a → Safe m Post s (f a))
      → Safe m Post s (elim o [ none ↦ t | some a ↦ f a ])
  Safe-option none t f ht hf = ht refl
  Safe-option (some a) t f ht hf = hf a refl

  -- Where an error may end the tree.
  module _ (stop : (e : Error) → Post s (raised e)) where
    pub Safe-require :
        {A : Type 0} (o : Option A) (msg : String) (f : A → M B)
        → ((a : A) → o ≡ some a → Safe m Post s (f a))
        → Safe m Post s (require o msg >>= f)
    Safe-require none msg f h = stop _
    Safe-require (some a) msg f h = h a refl

    pub Safe-lift :
        {A : Type 0} (r : Answer A) (f : A → M B)
        → ((a : A) → Safe m Post s (f a))
        → Safe m Post s (lift r >>= f)
    Safe-lift (ok a) f h = h a
    Safe-lift (err e) f h = stop _

module _ (m : Monitor) (s : m.State) where
  -- A tree whose calls the monitor allows in this state, and does not note.
  abbrev pub IsUnnoted : {A : Type 0} → M A → Type 0
  IsUnnoted (ret a) = Unit
  IsUnnoted (throw e) = Unit
  IsUnnoted (call c k) =
      m.Allowed s c × ((r : Answer (Value c)) → (m.next s c r ≡ s) × IsUnnoted (k r))
  IsUnnoted (sense q k) = (r : _) → IsUnnoted (k r)

  pub IsUnnoted-bind :
      {A B : Type 0} (t : M A) (f : A → M B)
      → IsUnnoted t
      → ((a : A) → IsUnnoted (f a))
      → IsUnnoted (t >>= f)
  IsUnnoted-bind (ret a) f h go = go a
  IsUnnoted-bind (throw e) f h go = tt
  IsUnnoted-bind (call c k) f h go = (h.0, λ r. ((h.1 r).0, IsUnnoted-bind (k r) f (h.1 r).1 go))
  IsUnnoted-bind (sense q k) f h go = λ r. IsUnnoted-bind (k r) f (h r) go

  pub IsUnnoted-require :
      {A B : Type 0} (o : Option A) (msg : String) (f : A → M B)
      → ((a : A) → IsUnnoted (f a))
      → IsUnnoted (require o msg >>= f)
  IsUnnoted-require none msg f h = tt
  IsUnnoted-require (some a) msg f h = h a

  pub IsUnnoted-lift :
      {A B : Type 0} (r : Answer A) (f : A → M B)
      → ((a : A) → IsUnnoted (f a))
      → IsUnnoted (lift r >>= f)
  IsUnnoted-lift (ok a) f h = h a
  IsUnnoted-lift (err e) f h = tt

  pub Safe-unnoted :
      {A B : Type 0} (Post : m.State → Outcome B → Type 0) (t : M A) (f : A → M B)
      → IsUnnoted t
      → ((a : A) → Safe m Post s (f a))
      → ((e : Error) → Post s (raised e))
      → Safe m Post s (t >>= f)
  Safe-unnoted Post (ret a) f h go stop = go a
  Safe-unnoted Post (throw e) f h go stop = stop e
  Safe-unnoted Post (call c k) f h go stop = (
    h.0,
    λ r.
        subst (λ x. Safe m Post x (k r >>= f)) (sym (h.1 r).0)
          (Safe-unnoted Post (k r) f (h.1 r).1 go stop),
  )
  Safe-unnoted Post (sense q k) f h go stop = λ r. Safe-unnoted Post (k r) f (h r) go stop

-- A match on a value that is known.
pub Safe-known :
    {A B : Type 0} (m : Monitor) (Post : m.State → Outcome B → Type 0) (s : m.State) (o : Option A)
    (a : A) (t : M B) (f : A → M B)
    → o ≡ some a
    → Safe m Post s (f a)
    → Safe m Post s (elim o [ none ↦ t | some x ↦ f x ])
Safe-known m Post s none a t f e h = cc
Safe-known m Post s (some x) a t f e h = subst (λ y. Safe m Post s (f y)) (sym (some_inj x a e)) h
