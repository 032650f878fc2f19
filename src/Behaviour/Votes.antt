-- ===== src/Behaviour/Votes.antt =====
-- src/controller/colocation.rs, `pick_anchor`: the count of the votes and its maximum.
use zfs_evacuation_controlle.Base.{
  ℕ, suc, ◌≤◌, ◌<◌, is_some, ◌+◌, String, Bool, true, false, ◌||◌, List, [], ◌∷◌, ◌≡◌, ◌⊎◌, refl,
  sym, ap, ◌∙◌, inl, inr, arith, eqs, eqs→eq, eq→eqs, find, length, keep, if_elim, if◌then◌else◌,
}
use zfs_evacuation_controlle.Controller.Colocation.{
  Anchor, count_votes, add_vote, beaten_by, max_vote,
}

-- The votes for a node.
abbrev pub votes : String → List Anchor → ℕ
votes node anchors = length (keep (λ a. eqs a.node node) anchors)

abbrev pub count : String → List (String × ℕ) → ℕ
count node [] = 0
count node ((n, c) ∷ vs) = if eqs n node then c else count node vs

pub eqs_refl : (k : String) → eqs k k ≡ true
eqs_refl k = eq→eqs k k refl

eqs_trans : (x k key : String) → eqs x key ≡ true → eqs x k ≡ eqs key k
eqs_trans x k key h = ap (λ y. eqs y k) (eqs→eq x key h)

eqs_meet : (n a node : String) → eqs n node ≡ true → eqs a node ≡ true → eqs n a ≡ true
eqs_meet n a node h g = eq→eqs n a (eqs→eq n node h ∙ sym (eqs→eq a node g))

count-add_vote :
    (a node : String) (vs : List (String × ℕ))
    → count node (add_vote a vs) ≡ (if eqs a node then suc (count node vs) else count node vs)
unfolding add_vote
count-add_vote a node [] = ground arith
count-add_vote a node ((n, c) ∷ vs) =
    if_elim
      (λ l. count node l ≡ (
        if eqs a node
        then suc (if eqs n node then c else count node vs)
        else if eqs n node
        then c
        else count node vs))
      (eqs n a) _ _ (λ h. let same = eqs_trans n node a h in ground arith)
      (λ h. let apart = eqs_meet n a node in ground (arith, count-add_vote a node vs))

pub count-count_votes :
    (node : String) (anchors : List Anchor) (vs : List (String × ℕ))
    → count node (count_votes anchors vs) ≡ votes node anchors + count node vs
unfolding count_votes
count-count_votes node [] vs = omega arith
count-count_votes node (a ∷ as') vs =
    ground (arith, count-add_vote a.node node vs, count-count_votes node as' (add_vote a.node vs))

-- The better of two votes counts no less than either.
beaten_lem : (u v : String × ℕ) → beaten_by u v ≡ true → u.1 ≤ v.1
unfolding beaten_by
beaten_lem (b, c) (n, d) h = ground arith

unbeaten_lem : (u v : String × ℕ) → beaten_by u v ≡ false → v.1 ≤ u.1
unfolding beaten_by
unbeaten_lem (b, c) (n, d) h = ground arith

better_lem :
    (u v : String × ℕ)
    → (u.1 ≤ (if beaten_by u v then v else u).1) × (v.1 ≤ (if beaten_by u v then v else u).1)
better_lem u v =
    if_elim {A = String × ℕ} (λ w. (u.1 ≤ w.1) × (v.1 ≤ w.1)) (beaten_by u v) _ _
      (λ h. (beaten_lem u v h, omega arith)) (λ h. (omega arith, unbeaten_lem u v h))

-- The winner's count is at least that of every entry.
max_vote_lem :
    (best : String × ℕ) (vs : List (String × ℕ)) (node : String)
    → (best.1 ≤ (max_vote best vs).1) × (count node vs ≤ (max_vote best vs).1)
unfolding max_vote
max_vote_lem best [] node = (omega arith, omega arith)
max_vote_lem best (v ∷ vs) node =
    let next = if beaten_by best v then v else best in
    let now = better_lem best v in
    let rest = max_vote_lem next vs node in
    (
      (let a = now.0 in let b = rest.0 in omega arith),
      if_elim (λ k. k ≤ (max_vote next vs).1) (eqs v.0 node) _ _
          (λ _. let a = now.1 in let b = rest.0 in omega arith) (λ _. rest.1),
    )

-- The keys of a table of votes are distinct.
abbrev pub has : String → List (String × ℕ) → Bool
has node [] = false
has node ((n, c) ∷ vs) = eqs n node || has node vs

abbrev pub Distinct : List (String × ℕ) → Type 0
Distinct [] = Unit
Distinct ((n, c) ∷ vs) = (has n vs ≡ false) × Distinct vs

has-add_vote :
    (a node : String) (vs : List (String × ℕ))
    → has node (add_vote a vs) ≡ (has node vs || eqs a node)
unfolding add_vote
has-add_vote a node [] = ground arith
has-add_vote a node ((n, c) ∷ vs) =
    if_elim (λ l. has node l ≡ ((eqs n node || has node vs) || eqs a node)) (eqs n a) _ _
      (λ h. let same = eqs_trans n node a h in ground arith)
      (λ h. ground (arith, has-add_vote a node vs))

add_vote-Distinct : (a : String) (vs : List (String × ℕ)) → Distinct vs → Distinct (add_vote a vs)
unfolding add_vote
add_vote-Distinct a [] d = (refl, tt)
add_vote-Distinct a ((n, c) ∷ vs) d =
    if_elim Distinct (eqs n a) _ _ (λ _. (d.0, d.1))
      (λ h. (
        ground (arith, has-add_vote a n vs, eqs_meet n a n, eqs_refl n),
        add_vote-Distinct a vs d.1,
      ))

pub count_votes-Distinct :
    (anchors : List Anchor) (vs : List (String × ℕ))
    → Distinct vs
    → Distinct (count_votes anchors vs)
unfolding count_votes
count_votes-Distinct [] vs d = d
count_votes-Distinct (a ∷ as') vs d =
    count_votes-Distinct as' (add_vote a.node vs) (add_vote-Distinct a.node vs d)

abbrev Listed : String × ℕ → List (String × ℕ) → Type 0
Listed w [] = ⊥
Listed w (v ∷ vs) = (w ≡ v) ⊎ Listed w vs

drop_second :
    (w best v : String × ℕ) (vs : List (String × ℕ))
    → Listed w (best ∷ vs)
    → Listed w (best ∷ v ∷ vs)
drop_second w best v vs (inl e) = inl e
drop_second w best v vs (inr l) = inr (inr l)

max_vote-Listed :
    (best : String × ℕ) (vs : List (String × ℕ)) → Listed (max_vote best vs) (best ∷ vs)
unfolding max_vote
max_vote-Listed best [] = inl refl
max_vote-Listed best (v ∷ vs) =
    if_elim {A = String × ℕ} (λ b. Listed (max_vote b vs) (best ∷ v ∷ vs)) (beaten_by best v) _ _
      (λ _. inr (max_vote-Listed v vs)) (λ _. drop_second _ best v vs (max_vote-Listed best vs))

Listed-has : (w : String × ℕ) (vs : List (String × ℕ)) → Listed w vs → has w.0 vs ≡ true
Listed-has w [] l = elim l [ ]
Listed-has w ((n, c) ∷ vs) (inl e) = let same = eq→eqs n w.0 (sym (ap (λ x. x.0) e)) in ground arith
Listed-has w ((n, c) ∷ vs) (inr l) = ground (arith, Listed-has w vs l)

eqs-has : (n k : String) (vs : List (String × ℕ)) → eqs n k ≡ true → has k vs ≡ has n vs
eqs-has n k vs h = ap (λ x. has x vs) (sym (eqs→eq n k h))

Listed-count :
    (w : String × ℕ) (vs : List (String × ℕ)) → Distinct vs → Listed w vs → count w.0 vs ≡ w.1
Listed-count w [] d l = elim l [ ]
Listed-count w ((n, c) ∷ vs) d (inl e) =
    let same = eq→eqs n w.0 (sym (ap (λ x. x.0) e)) in let kept = ap (λ x. x.1) e in ground arith
Listed-count w ((n, c) ∷ vs) d (inr l) =
    let there = Listed-has w vs l in
    let here = eqs-has n w.0 vs in let rest = Listed-count w vs d.1 l in ground arith

-- The node that wins has the most votes.
pub winner_lem :
    (v : String × ℕ) (vs : List (String × ℕ)) (node : String)
    → Distinct (v ∷ vs)
    → count node (v ∷ vs) ≤ count (max_vote v vs).0 (v ∷ vs)
winner_lem v vs node d =
    let w = max_vote v vs in
    let top = max_vote_lem v vs node in
    let own : count w.0 (v ∷ vs) ≡ w.1 = Listed-count w (v ∷ vs) d (max_vote-Listed v vs) in
    rw own (if_elim (λ k. k ≤ w.1) (eqs v.0 node) _ _ (λ _. top.0) (λ _. top.1))

pub found_lem :
    (best : String) (anchors : List Anchor)
    → 0 < votes best anchors
    → is_some (find (λ x. eqs x.node best) anchors) ≡ true
found_lem best [] h = ground arith
found_lem best (x ∷ xs) h = ground (arith, found_lem best xs)
