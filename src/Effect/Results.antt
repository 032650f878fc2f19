-- ===== src/Effect/Results.antt =====
-- What a tree returns, whatever the answers are.
use zfs_evacuation_controlle.Base.{Bool, true, false, Option, none, some, if◌then◌else◌}
use zfs_evacuation_controlle.Effect.Calls.{Answer, Value}
use zfs_evacuation_controlle.Effect.Tree.{M, ret, throw, call, sense, ◌>>=◌}

-- Whatever the tree returns has the property.
abbrev pub Returns : {A : Type 0} → (A → Type 0) → M A → Type 0
Returns R (ret a) = R a
Returns R (throw e) = Unit
Returns R (call c k) = (r : Answer (Value c)) → Returns R (k r)
Returns R (sense q k) = (r : _) → Returns R (k r)

pub Returns-bind :
    {A B : Type 0} (R : A → Type 0) (S : B → Type 0) (tree : M A) (f : A → M B)
    → Returns R tree
    → ((a : A) → R a → Returns S (f a))
    → Returns S (tree >>= f)
Returns-bind R S (ret a) f h go = go a h
Returns-bind R S (throw e) f h go = tt
Returns-bind R S (call c k) f h go = λ r. Returns-bind R S (k r) f (h r) go
Returns-bind R S (sense q k) f h go = λ r. Returns-bind R S (k r) f (h r) go

pub Returns-after :
    {A B : Type 0} (S : B → Type 0) (tree : M A) (f : A → M B)
    → ((a : A) → Returns S (f a))
    → Returns S (tree >>= f)
Returns-after S (ret a) f go = go a
Returns-after S (throw e) f go = tt
Returns-after S (call c k) f go = λ r. Returns-after S (k r) f go
Returns-after S (sense q k) f go = λ r. Returns-after S (k r) f go

pub Returns-if :
    {A : Type 0} (S : A → Type 0) (b : Bool) (t u : M A)
    → Returns S t
    → Returns S u
    → Returns S (if b then t else u)
Returns-if S true t u ht hu = ht
Returns-if S false t u ht hu = hu

pub Returns-option :
    {A B : Type 0} (S : B → Type 0) (o : Option A) (t : M B) (f : A → M B)
    → Returns S t
    → ((a : A) → Returns S (f a))
    → Returns S (elim o [ none ↦ t | some a ↦ f a ])
Returns-option S none t f ht hf = ht
Returns-option S (some a) t f ht hf = hf a
