-- ===== src/Splay/Order.antt =====
-- The nodes of a tree from left to right, and that splaying keeps them.
use gnuais.Common.{
  ℕ, ◌≡◌, refl, sym, ap, ◌∙◌, inl, inr, Bool-cases, Option, none, some, List, [], ◌∷◌, ◌++◌,
  append-nil, append_assoc, ltb, ◌==◌,
}
use gnuais.Splay.{
  Tree, leaf, node, Up, from_left, from_right, Place, Node, find, splay_up, splay, deq_under,
}

module _ {ℓ} {A : Type ℓ} where
  unfoldable pub inorder : Tree A → List (Node A)
  inorder leaf = []
  inorder (node l k v r) = inorder l ++ (k, v) ∷ inorder r

  -- The nodes left of a place that a way up leads by, and those right of it.
  unfoldable pub before : List (Up A) → List (Node A)
  before [] = []
  before (from_left k v r ∷ up) = before up
  before (from_right l k v ∷ up) = before up ++ (inorder l ++ (k, v) ∷ [])

  unfoldable pub behind : List (Up A) → List (Node A)
  behind [] = []
  behind (from_left k v r ∷ up) = (k, v) ∷ inorder r ++ behind up
  behind (from_right l k v ∷ up) = behind up

  pub splay_up-left :
      (left right : Tree A) (up : List (Up A))
      → inorder (splay_up left right up).0 ≡ before up ++ inorder left
  unfolding splay_up inorder before
  splay_up-left left right [] = refl
  splay_up-left left right (from_left k v r ∷ []) = refl
  splay_up-left left right (from_left k v r ∷ from_left k' v' r' ∷ up) =
      splay_up-left left (node right k v (node r k' v' r')) up
  splay_up-left left right (from_left k v r ∷ from_right l' k' v' ∷ up) =
      splay_up-left left (node right k v r) (from_right l' k' v' ∷ up)
  splay_up-left left right (from_right l k v ∷ []) = simp append_assoc refl
  splay_up-left left right (from_right l k v ∷ from_right l' k' v' ∷ up) =
      splay_up-left (node (node l' k' v' l) k v left) right up ∙ simp append_assoc refl
  splay_up-left left right (from_right l k v ∷ from_left k' v' r' ∷ up) =
      splay_up-left (node l k v left) right (from_left k' v' r' ∷ up) ∙ simp append_assoc refl

  pub splay_up-right :
      (left right : Tree A) (up : List (Up A))
      → inorder (splay_up left right up).1 ≡ inorder right ++ behind up
  unfolding splay_up inorder behind
  splay_up-right left right [] = sym (append-nil _)
  splay_up-right left right (from_left k v r ∷ []) = simp append-nil refl
  splay_up-right left right (from_left k v r ∷ from_left k' v' r' ∷ up) =
      splay_up-right left (node right k v (node r k' v' r')) up ∙ simp append_assoc refl
  splay_up-right left right (from_left k v r ∷ from_right l' k' v' ∷ up) =
      splay_up-right left (node right k v r) (from_right l' k' v' ∷ up) ∙ simp append_assoc refl
  splay_up-right left right (from_right l k v ∷ []) = sym (append-nil _)
  splay_up-right left right (from_right l k v ∷ from_right l' k' v' ∷ up) =
      splay_up-right (node (node l' k' v' l) k v left) right up
  splay_up-right left right (from_right l k v ∷ from_left k' v' r' ∷ up) =
      splay_up-right (node l k v left) right (from_left k' v' r' ∷ up)

  -- All nodes of the tree that a place is in.
  unfoldable pub listing : Place A → List (Node A)
  unfolding inorder before behind
  listing n =
      before n.uplinks
      ++ (inorder n.leftlink ++ (n.key, n.item) ∷ (inorder n.rightlink ++ behind n.uplinks))

  pub inorder-splay : (n : Place A) → inorder (splay n) ≡ listing n
  unfolding splay listing inorder
  inorder-splay n = rw (
    splay_up-left n.leftlink n.rightlink n.uplinks,
    splay_up-right n.leftlink n.rightlink n.uplinks,
    append_assoc (before n.uplinks) (inorder n.leftlink)
        ((n.key, n.item) ∷ (inorder n.rightlink ++ behind n.uplinks)),
  )

  listed : Option (Place A) → List (Node A)
  listed none = []
  listed (some n) = listing n

  pub find-listing :
      (key : ℕ) (t : Tree A) (up : List (Up A)) (n : Place A)
      → find key t up ≡ some n
      → listing n ≡ before up ++ (inorder t ++ behind up)
  unfolding find listed listing inorder before behind
  find-listing key leaf up n e = absurd cc
  find-listing key (node l k v r) up n e = elim (Bool-cases (key == k)) [
    | inl same ↦ ap listed (sym (rw same at e)) ∙ simp append_assoc refl
    | inr other ↦ elim (Bool-cases (ltb key k)) [
      | inl low ↦
          find-listing key l (from_left k v r ∷ up) n (rw (other, low) at e)
          ∙ simp append_assoc refl
      | inr high ↦
          find-listing key r (from_right l k v ∷ up) n (rw (other, high) at e)
          ∙ simp append_assoc refl
    ]
  ]

  pub inorder-deq_under :
      (l : Tree A) (k : ℕ) (v : A) (r : Tree A)
      → (deq_under l k v r).0 ∷ inorder (deq_under l k v r).1 ≡ inorder l ++ (k, v) ∷ inorder r
  unfolding deq_under inorder
  inorder-deq_under leaf k v r = refl
  inorder-deq_under (node leaf lk lv lr) k v r = refl
  inorder-deq_under (node (node leaf fk fv fr) lk lv lr) k v r = simp append_assoc refl
  inorder-deq_under (node (node (node gl gk gv gr) fk fv fr) lk lv lr) k v r =
      let step = inorder-deq_under (node gl gk gv gr) fk fv (node fr lk lv lr) in
      ap (λ es. es ++ (k, v) ∷ inorder r) step ∙ simp append_assoc refl
