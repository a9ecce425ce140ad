-- ===== src/Splay/Walk.antt =====
-- `sp_fhead`, `sp_fnext` and `sp_scan` against the nodes of the tree from left to right, and
-- `sp_null`.
use gnuais.Common.{
  ℕ, zero, suc, ◌≤◌, ◌≡◌, refl, sym, ap, ◌∙◌, Option, none, some, List, [], ◌∷◌, ◌++◌, append-nil,
  append_assoc, arith, length,
}
use gnuais.Splay.{
  Tree, leaf, node, Up, from_left, from_right, Place, SpTree, Node, leftmost, climb, first_of,
  next_of, sp_fhead, sp_fnext, scan_from, sp_scan,
}
use gnuais.Splay.Order.{inorder, behind}
use gnuais.Splay.Refinement.{IsValid}

module _ {ℓ} {A : Type ℓ} where
  -- The nodes from a place on.
  unfoldable pub onward : Option (Place A) → List (Node A)
  unfolding inorder behind
  onward none = []
  onward (some n) = (n.key, n.item) ∷ (inorder n.rightlink ++ behind n.uplinks)

  onward-leftmost :
      (l : Tree A) (k : ℕ) (v : A) (r : Tree A) (up : List (Up A))
      → onward (some (leftmost l k v r up)) ≡ inorder l ++ (k, v) ∷ (inorder r ++ behind up)
  unfolding leftmost onward inorder behind
  onward-leftmost leaf k v r up = refl
  onward-leftmost (node l lk lv lr) k v r up =
      onward-leftmost l lk lv lr (from_left k v r ∷ up) ∙ simp append_assoc refl

  onward-climb : (n : Tree A) (up : List (Up A)) → onward (climb n up) ≡ behind up
  unfolding climb onward behind
  onward-climb n [] = refl
  onward-climb n (from_left k v r ∷ up) = refl
  onward-climb n (from_right l k v ∷ up) = onward-climb (node l k v n) up

  onward-first_of : (t : Tree A) → onward (first_of t []) ≡ inorder t
  unfolding first_of inorder
  onward-first_of leaf = unfold onward in refl
  onward-first_of (node l k v r) =
      onward-leftmost l k v r []
      ∙ (unfold behind in ap (λ es. inorder l ++ (k, v) ∷ es) (append-nil (inorder r)))

  -- From `sp_fhead` on, there are all nodes of the tree.
  pub onward-sp_fhead : (q : SpTree A) → onward (sp_fhead q) ≡ inorder q.root
  unfolding sp_fhead
  onward-sp_fhead q = onward-first_of q.root

  onward-next_of :
      (l : Tree A) (k : ℕ) (v : A) (up : List (Up A)) (r : Tree A)
      → onward (next_of l k v up r) ≡ inorder r ++ behind up
  unfolding next_of inorder
  onward-next_of l k v up leaf = onward-climb (node l k v leaf) up
  onward-next_of l k v up (node rl rk rv rr) =
      onward-leftmost rl rk rv rr (from_right l k v ∷ up)
      ∙ (unfold behind in sym (append_assoc (inorder rl) ((rk, rv) ∷ inorder rr) (behind up)))

  -- From `sp_fnext` on, there are the nodes after the node.
  pub onward-sp_fnext :
      (n : Place A) → onward (sp_fnext n) ≡ inorder n.rightlink ++ behind n.uplinks
  unfolding sp_fnext
  onward-sp_fnext n = onward-next_of n.leftlink n.key n.item n.uplinks n.rightlink

  onward-scan_from :
      (fuel : ℕ) (o : Option (Place A))
      → length (onward o) ≤ fuel
      → scan_from fuel o ≡ some (onward o)
  unfolding scan_from onward
  onward-scan_from fuel none h = refl
  onward-scan_from zero (some n) h = absurd (omega arith)
  onward-scan_from (suc fuel) (some n) h =
      let next = onward-sp_fnext n in
      let rest = onward-scan_from fuel (sp_fnext n) (omega (arith, ap length next)) in
      rw rest (ap (λ es. some ((n.key, n.item) ∷ es)) next)

  pub sp_scan-inorder : (q : SpTree A) → IsValid q → sp_scan q ≡ some (inorder q.root)
  unfolding sp_scan
  sp_scan-inorder q v =
      onward-scan_from q.eltscnt (sp_fhead q)
        (omega (arith, ap length (onward-sp_fhead q), v.counted))
      ∙ ap some (onward-sp_fhead q)
