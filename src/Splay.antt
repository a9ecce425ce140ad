-- ===== src/Splay.antt =====
-- src/splay.c: the splay trees that the cache keeps its entries in. A node's links make it a tree;
-- its uplinks are the path from the node to the root. The counters of `struct sptree` that only
-- `sp_stats` prints are left out.
pub mod Sorted
pub mod Order
pub mod Split
pub mod Refinement
pub mod Root
pub mod Walk
pub mod Drain
use gnuais.Common.{
  ℕ, zero, suc, ◌+◌, ◌-◌, Bool, Option, none, some, List, [], ◌∷◌, ◌++◌, ltb, ◌==◌, if◌then◌else◌,
  ◌>>=◌,
}

module _ {ℓ} (A : Type ℓ) where
  -- struct spblk: `leftlink`, `key`, `data` (here `item`), `rightlink`; `leaf` is NULL.
  pub data Tree : Type ℓ where
    leaf : Tree
    node : (leftlink : Tree) (key : ℕ) (item : A) (rightlink : Tree) → Tree

  -- A node on the way up: the rest of it, with the side that the way comes from.
  pub data Up : Type ℓ where
    from_left : (key : ℕ) (item : A) (rightlink : Tree) → Up
    from_right : (leftlink : Tree) (key : ℕ) (item : A) → Up

  -- A node in its tree.
  pub record Place : Type ℓ where
    pub leftlink : Tree
    pub key : ℕ
    pub item : A
    pub rightlink : Tree
    pub uplinks : List Up

  -- struct sptree
  pub record SpTree : Type ℓ where
    pub root : Tree
    pub eltscnt : ℕ

  abbrev pub Node : Type ℓ
  Node = ℕ × A

module _ {ℓ} {A : Type ℓ} where
  -- The search loop of `sp_lookup`.
  unfoldable pub find : (key : ℕ) → Tree A → List (Up A) → Option (Place A)
  find key leaf uplinks = none
  find key (node l k v r) uplinks =
      let to_left = find key l (from_left k v r ∷ uplinks) in
      let to_right = find key r (from_right l k v ∷ uplinks) in
      if key == k
      then some (record { leftlink = l; key = k; item = v; rightlink = r; uplinks = uplinks })
      else if ltb key k
      then to_left
      else to_right

  -- The loop of `_splay`: what is left of the node, and what is right of it.
  unfoldable pub splay_up : (left right : Tree A) → List (Up A) → Tree A × Tree A
  splay_up left right [] = (left, right)
  splay_up left right (from_left k v r ∷ []) = (left, node right k v r)
  splay_up left right (from_left k v r ∷ from_left k' v' r' ∷ up) =
      splay_up left (node right k v (node r k' v' r')) up
  splay_up left right (from_left k v r ∷ from_right l' k' v' ∷ up) =
      splay_up left (node right k v r) (from_right l' k' v' ∷ up)
  splay_up left right (from_right l k v ∷ []) = (node l k v left, right)
  splay_up left right (from_right l k v ∷ from_right l' k' v' ∷ up) =
      splay_up (node (node l' k' v' l) k v left) right up
  splay_up left right (from_right l k v ∷ from_left k' v' r' ∷ up) =
      splay_up (node l k v left) right (from_left k' v' r' ∷ up)

  -- `_splay`: the node becomes the root.
  unfoldable pub splay : Place A → Tree A
  unfolding splay_up
  splay n =
      let (left, right) = splay_up n.leftlink n.rightlink n.uplinks in node left n.key n.item right

  -- `sp_lookup`: what the node holds, and the tree splayed around it.
  unfoldable pub sp_lookup : (key : ℕ) → SpTree A → Option A × SpTree A
  unfolding find splay
  sp_lookup key q = elim (find key q.root []) [
    | none ↦ (none, q)
    | some n ↦ (some n.item, record q { root = splay n })
  ]

  -- The two loops of `_sp_enq`: what is left of the key and what is right of it. A tree that is
  -- split on is `next`; a lower key is at label `one`, any other at label `two`.
  unfoldable pub split : (key : ℕ) → Tree A → Tree A × Tree A
  split key leaf = (leaf, leaf)
  split key (node leaf k v leaf) =
      if ltb k key then (node leaf k v leaf, leaf) else (leaf, node leaf k v leaf)
  split key (node leaf k v (node bl bk bv br)) =
      let further = split key br in
      let change = split key (node bl bk bv br) in
      if ltb k key
      then (if ltb bk key
          then (node (node leaf k v bl) bk bv further.0, further.1)
          else (node leaf k v change.0, change.1))
      else (leaf, node leaf k v (node bl bk bv br))
  split key (node (node al ak av ar) k v leaf) =
      let further = split key al in
      let change = split key (node al ak av ar) in
      if ltb k key
      then (node (node al ak av ar) k v leaf, leaf)
      else if ltb ak key
      then (change.0, node change.1 k v leaf)
      else (further.0, node further.1 ak av (node ar k v leaf))
  split key (node (node al ak av ar) k v (node bl bk bv br)) =
      let further_right = split key br in
      let change_right = split key (node bl bk bv br) in
      let further_left = split key al in
      let change_left = split key (node al ak av ar) in
      if ltb k key
      then (if ltb bk key
          then (node (node (node al ak av ar) k v bl) bk bv further_right.0, further_right.1)
          else (node (node al ak av ar) k v change_right.0, change_right.1))
      else if ltb ak key
      then (change_left.0, node change_left.1 k v (node bl bk bv br))
      else (further_left.0, node further_left.1 ak av (node ar k v (node bl bk bv br)))

  -- `_sp_enq` of a node that is not in the tree.
  unfoldable pub sp_enq : (key : ℕ) → A → Tree A → Tree A
  unfolding split
  sp_enq key item root = let (left, right) = split key root in node left key item right

  -- `sp_install` after its search, with the data that its caller then stores in the new node. A node
  -- that is found keeps its data.
  unfoldable pub install_found : (key : ℕ) → A → Option A × SpTree A → SpTree A
  unfolding sp_enq
  install_found key item (some old, q) = q
  install_found key item (none, q) = record {
    root = sp_enq key item q.root;
    eltscnt = q.eltscnt + 1;
  }

  unfoldable pub sp_install : (key : ℕ) → A → SpTree A → SpTree A
  unfolding sp_lookup install_found
  sp_install key item q = install_found key item (sp_lookup key q)

  -- `_sp_deq` under a node: the first node of the subtree, and the subtree without it. The first
  -- argument is the node's left link, `left`.
  unfoldable pub deq_under : Tree A → (key : ℕ) → A → Tree A → Node A × Tree A
  deq_under leaf k v r = ((k, v), r)
  deq_under (node leaf lk lv lr) k v r = ((lk, lv), node lr k v r)
  deq_under (node (node leaf fk fv fr) lk lv lr) k v r = ((fk, fv), node (node fr lk lv lr) k v r)
  deq_under (node (node (node gl gk gv gr) fk fv fr) lk lv lr) k v r =
      let (first, rest) = deq_under (node gl gk gv gr) fk fv (node fr lk lv lr) in
      (first, node rest k v r)

  -- `_sp_deq`
  unfoldable pub sp_deq : Tree A → Option (Node A × Tree A)
  unfolding deq_under
  sp_deq leaf = none
  sp_deq (node l k v r) = some (deq_under l k v r)

  -- The root of `sp_delete` without its node: the first node on the right takes its place.
  unfoldable pub drop_root : Tree A → Tree A
  unfolding sp_deq
  drop_root leaf = leaf
  drop_root (node l k v r) = elim (sp_deq r) [
    | none ↦ l
    | some first_rest ↦ node l first_rest.0.0 first_rest.0.1 first_rest.1
  ]

  -- `sp_delete` of a node of the tree.
  unfoldable pub sp_delete : Place A → SpTree A → SpTree A
  unfolding splay drop_root
  sp_delete n q = record { root = drop_root (splay n); eltscnt = q.eltscnt - 1 }

  -- The loop of `sp_fhead` and the first loop of `sp_fnext`: down the left links.
  unfoldable pub leftmost : Tree A → (key : ℕ) → A → Tree A → List (Up A) → Place A
  leftmost leaf k v r up = record {
    leftlink = leaf;
    key = k;
    item = v;
    rightlink = r;
    uplinks = up;
  }
  leftmost (node l lk lv lr) k v r up = leftmost l lk lv lr (from_left k v r ∷ up)

  -- The first node of a subtree.
  unfoldable pub first_of : Tree A → List (Up A) → Option (Place A)
  unfolding leftmost
  first_of leaf up = none
  first_of (node l k v r) up = some (leftmost l k v r up)

  unfoldable pub sp_fhead : SpTree A → Option (Place A)
  unfolding first_of
  sp_fhead q = first_of q.root []

  -- The second loop of `sp_fnext`: up until the way comes from a left link. `n` is the subtree that
  -- the way has left.
  unfoldable pub climb : (n : Tree A) → List (Up A) → Option (Place A)
  climb n [] = none
  climb n (from_left k v r ∷ up) =
      some (record { leftlink = n; key = k; item = v; rightlink = r; uplinks = up })
  climb n (from_right l k v ∷ up) = climb (node l k v n) up

  -- The place after a node with the right link given last.
  unfoldable pub next_of : (l : Tree A) (k : ℕ) → A → List (Up A) → (r : Tree A) → Option (Place A)
  unfolding leftmost climb
  next_of l k v up leaf = climb (node l k v leaf) up
  next_of l k v up (node rl rk rv rr) = some (leftmost rl rk rv rr (from_right l k v ∷ up))

  unfoldable pub sp_fnext : Place A → Option (Place A)
  unfolding next_of
  sp_fnext n = next_of n.leftlink n.key n.item n.uplinks n.rightlink

  -- The loop of `sp_scan`: the nodes that the function is applied to. Each round goes on to a later
  -- node, so that the number of nodes suffices as fuel.
  unfoldable pub scan_from : (fuel : ℕ) → Option (Place A) → Option (List (Node A))
  unfolding sp_fnext
  scan_from fuel none = some []
  scan_from zero (some n) = none
  scan_from (suc fuel) (some n) = do
    rest ← scan_from fuel (sp_fnext n)
    some ((n.key, n.item) ∷ rest)

  -- `sp_scan` from the head.
  unfoldable pub sp_scan : SpTree A → Option (List (Node A))
  unfolding sp_fhead scan_from
  sp_scan q = scan_from q.eltscnt (sp_fhead q)

  -- `_sp_chop`: the keys of the nodes in the order in which they are freed.
  unfoldable pub chop : Tree A → List (Node A)
  chop leaf = []
  chop (node l k v r) = chop r ++ (chop l ++ (k, v) ∷ [])

  -- `sp_init`, and `sp_null` with the nodes that it frees.
  unfoldable pub sp_init : SpTree A
  sp_init = record { root = leaf; eltscnt = 0 }

  unfoldable pub sp_null : SpTree A → SpTree A × List (Node A)
  unfolding chop
  sp_null q = elim q.root [
    | leaf ↦ (q, [])
    | node l k v r ↦ (record { root = leaf; eltscnt = 0 }, chop (node l k v r))
  ]
