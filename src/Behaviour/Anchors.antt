-- ===== src/Behaviour/Anchors.antt =====
-- src/controller/colocation.rs, `pick_anchor`.
use zfs_evacuation_controlle.Base.{
  ℕ, ◌≤◌, ◌<◌, is_some, String, true, none, some, List, [], ◌∷◌, Option, Memᴰ, ◌≡◌, refl, sym,
  subst, arith, eqs, eqs→eq, find, find_lem,
}
use zfs_evacuation_controlle.Controller.Colocation.{
  Anchor, count_votes, max_vote, best_node, pick_anchor,
}
use zfs_evacuation_controlle.Behaviour.Votes.{
  votes, count, eqs_refl, count-count_votes, Distinct, count_votes-Distinct, winner_lem, found_lem,
}

-- A table that counts the votes.
abbrev Tallied : List Anchor → List (String × ℕ) → Type 0
Tallied anchors tbl = Distinct tbl × ((node : String) → count node tbl ≡ votes node anchors)

module _ (anchors : List Anchor) where
  count_votes-Tallied : Tallied anchors (count_votes anchors [])
  count_votes-Tallied = (
    count_votes-Distinct anchors [] tt,
    λ node. ground (arith, count-count_votes node anchors []),
  )

  picked :
      (tbl : List (String × ℕ))
      → Tallied anchors tbl
      → (a : Anchor)
      → elim (best_node tbl) [ none ↦ none | some best ↦ find (λ x. eqs x.node best) anchors ]
        ≡ some a
      → Memᴰ a anchors × ((node : String) → votes node anchors ≤ votes a.node anchors)
  unfolding best_node
  picked [] h a e = cc
  picked (v ∷ vs) h a e =
      let best = (max_vote v vs).0 in
      let found = find_lem (λ x. eqs x.node best) anchors a e in
      let named = eqs→eq a.node best found.1 in
      (
        found.0,
        λ node.
            subst (λ n. votes node anchors ≤ votes n anchors) (sym named)
              (let top = winner_lem v vs node h.0 in
                let x = h.1 node in let y = h.1 best in omega arith),
      )

  picked_some :
      (tbl : List (String × ℕ)) (node : String)
      → Tallied anchors tbl
      → 0 < votes node anchors
      → is_some
          (elim (best_node tbl) [ none ↦ none | some best ↦ find (λ x. eqs x.node best) anchors ])
        ≡ true
  unfolding best_node
  picked_some [] node h pos = let x = h.1 node in ground arith
  picked_some (v ∷ vs) node h pos =
      let best = (max_vote v vs).0 in
      let top = winner_lem v vs node h.0 in
      let x = h.1 node in let y = h.1 best in found_lem best anchors (omega arith)

  -- The anchor that is picked is one of those found, and no node has more votes than its node.
  pick_anchor_lem :
      (a : Anchor)
      → pick_anchor anchors ≡ some a
      → Memᴰ a anchors × ((node : String) → votes node anchors ≤ votes a.node anchors)
  unfolding pick_anchor
  pick_anchor_lem a e = picked (count_votes anchors []) count_votes-Tallied a e

votes_head : (a : Anchor) (as' : List Anchor) → 0 < votes a.node (a ∷ as')
votes_head a as' = ground (arith, eqs_refl a.node)

-- Where an anchor was found, one is picked.
pick_anchor-some : (a : Anchor) (as' : List Anchor) → is_some (pick_anchor (a ∷ as')) ≡ true
unfolding pick_anchor
pick_anchor-some a as' =
    picked_some (a ∷ as') (count_votes (a ∷ as') []) a.node (count_votes-Tallied (a ∷ as'))
      (votes_head a as')

-- One of those found whose node has most votes, or none of none.
abbrev pub Picked : List Anchor → Option Anchor → Type 0
Picked anchors none = anchors ≡ []
Picked anchors (some a) =
    Memᴰ a anchors × ((node : String) → votes node anchors ≤ votes a.node anchors)

-- The anchor that is picked is one of those found, and no node has more votes than its node; none is
-- picked only where none was found.
pub pick_anchor-Picked : (anchors : List Anchor) → Picked anchors (pick_anchor anchors)
pick_anchor-Picked anchors = by_result anchors (pick_anchor anchors) refl
  where
    by_result : (xs : List Anchor) (r : Option Anchor) → pick_anchor xs ≡ r → Picked xs r
    by_result [] none e = refl
    by_result (x ∷ xs) none e = absurd (all_none (pick_anchor-some x xs) e)
      where
        all_none : {r : Option Anchor} → is_some r ≡ true → r ≡ none → ⊥
        all_none h e = ground arith
    by_result xs (some a) e = pick_anchor_lem xs a e
