-- ===== src/Splay/Split.antt =====
-- `split`, the two loops of `_sp_enq`: the lower nodes go left, the others right, in their order.
use gnuais.Common.{
  ℕ, ◌≤◌, ◌<◌, ◌≡◌, refl, sym, ap, ◌∙◌, Bool, true, false, ◌∷◌, ◌++◌, append_assoc, arith, ltb,
  if◌then◌else◌, All-append,
}
use gnuais.Splay.{Tree, leaf, node, split}
use gnuais.Splay.Sorted.{Below, NotBelow, Sorted, Sorted-Around, All-weaken}
use gnuais.Splay.Order.{inorder}

-- Two trees hold the nodes of a tree, in order, and those of the first are below the key.
pub record Splits {ℓ} {A : Type ℓ} (key : ℕ) (t : Tree A) (parts : Tree A × Tree A) : Type ℓ where
  pub joins : inorder parts.0 ++ inorder parts.1 ≡ inorder t
  pub low : Sorted (inorder t) → Below key (inorder parts.0)
  pub high : Sorted (inorder t) → NotBelow key (inorder parts.1)

module _ {ℓ} {A : Type ℓ} (key : ℕ) where
  if-Splits :
      (t : Tree A) (b : Bool) (x y : Tree A × Tree A)
      → (b ≡ true → Splits key t x)
      → (b ≡ false → Splits key t y)
      → Splits key t (if b then x else y)
  if-Splits t true x y p q = p refl
  if-Splits t false x y p q = q refl

  leaf-Splits : Splits {A = A} key leaf (leaf, leaf)
  unfolding inorder
  leaf-Splits = record { joins = refl; low = λ s. tt; high = λ s. tt }

  right-Splits :
      (a : Tree A) (k : ℕ) (v : A) (b : Tree A) (parts : Tree A × Tree A)
      → k < key
      → Splits key b parts
      → Splits key (node a k v b) (node a k v parts.0, parts.1)
  unfolding inorder
  right-Splits a k v b parts h s = record {
    joins =
        append_assoc (inorder a) ((k, v) ∷ inorder parts.0) (inorder parts.1)
        ∙ ap (λ es. inorder a ++ (k, v) ∷ es) s.joins;
    low = λ p.
        let around = Sorted-Around (inorder a) k v (inorder b) p in
        All-append (λ e. e.0 < key) (inorder a) ((k, v) ∷ inorder parts.0)
          (All-weaken (λ e. e.0 < k) (λ e. e.0 < key) (inorder a) (λ e q. omega arith) around.below)
          (h, s.low around.right);
    high = λ p. s.high ((Sorted-Around (inorder a) k v (inorder b) p).right);
  }

  left-Splits :
      (a : Tree A) (k : ℕ) (v : A) (b : Tree A) (parts : Tree A × Tree A)
      → key ≤ k
      → Splits key a parts
      → Splits key (node a k v b) (parts.0, node parts.1 k v b)
  unfolding inorder
  left-Splits a k v b parts h s = record {
    joins =
        sym (append_assoc (inorder parts.0) (inorder parts.1) ((k, v) ∷ inorder b))
        ∙ ap (λ es. es ++ (k, v) ∷ inorder b) s.joins;
    low = λ p. s.low ((Sorted-Around (inorder a) k v (inorder b) p).left);
    high = λ p.
        let around = Sorted-Around (inorder a) k v (inorder b) p in
        All-append (λ e. key ≤ e.0) (inorder parts.1) ((k, v) ∷ inorder b) (s.high around.left)
          (
            h,
            All-weaken (λ e. k < e.0) (λ e. key ≤ e.0) (inorder b) (λ e q. omega arith)
                around.above,
          );
  }

  -- Trees with the same nodes in order.
  same-Splits :
      (t : Tree A) (x y : Tree A × Tree A)
      → inorder x.0 ≡ inorder y.0
      → inorder x.1 ≡ inorder y.1
      → Splits key t x
      → Splits key t y
  same-Splits t x y e f s = record {
    joins = rw (← e, ← f) s.joins;
    low = λ p. rw (← e) (s.low p);
    high = λ p. rw (← f) (s.high p);
  }

  -- A rotation to the left below the node.
  rotate_right-Splits :
      (a : Tree A) (k : ℕ) (v : A) (bl : Tree A) (bk : ℕ) (bv : A) (br : Tree A)
      → (parts : Tree A × Tree A) → k < key
      → bk < key
      → Splits key br parts
      → Splits key (node a k v (node bl bk bv br)) (node (node a k v bl) bk bv parts.0, parts.1)
  unfolding inorder
  rotate_right-Splits a k v bl bk bv br parts h h' s =
      same-Splits _ (node a k v (node bl bk bv parts.0), parts.1) _ (simp append_assoc refl) refl
        (right-Splits a k v (node bl bk bv br) (node bl bk bv parts.0, parts.1) h
          (right-Splits bl bk bv br parts h' s))

  rotate_left-Splits :
      (al : Tree A) (ak : ℕ) (av : A) (ar : Tree A) (k : ℕ) (v : A) (b : Tree A)
      → (parts : Tree A × Tree A) → key ≤ k
      → key ≤ ak
      → Splits key al parts
      → Splits key (node (node al ak av ar) k v b) (parts.0, node parts.1 ak av (node ar k v b))
  unfolding inorder
  rotate_left-Splits al ak av ar k v b parts h h' s =
      same-Splits _ (parts.0, node (node parts.1 ak av ar) k v b) _ refl (simp append_assoc refl)
        (left-Splits (node al ak av ar) k v b (parts.0, node parts.1 ak av ar) h
          (left-Splits al ak av ar parts h' s))

  -- The two trees of `_sp_enq` hold the nodes of the tree that it splits, in their order; if that
  -- tree is in order, those with lower keys are in the first and the others in the second.
  pub split-Splits : (t : Tree A) → Splits key t (split key t)
  unfolding split
  split-Splits leaf = leaf-Splits
  split-Splits (node leaf k v leaf) =
      if-Splits _ (ltb k key) _ _
        (λ e. right-Splits leaf k v leaf (leaf, leaf) (ground arith) leaf-Splits)
        (λ e. left-Splits leaf k v leaf (leaf, leaf) (ground arith) leaf-Splits)
  split-Splits (node leaf k v (node bl bk bv br)) =
      if-Splits _ (ltb k key) _ _
        (λ e.
          if-Splits _ (ltb bk key) _ _
            (λ e'.
              rotate_right-Splits leaf k v bl bk bv br _ (ground arith) (ground arith)
                (split-Splits br))
            (λ e'. right-Splits leaf k v _ _ (ground arith) (split-Splits (node bl bk bv br))))
        (λ e. left-Splits leaf k v (node bl bk bv br) (leaf, leaf) (ground arith) leaf-Splits)
  split-Splits (node (node al ak av ar) k v leaf) =
      if-Splits _ (ltb k key) _ _
        (λ e. right-Splits (node al ak av ar) k v leaf (leaf, leaf) (ground arith) leaf-Splits)
        (λ e.
          if-Splits _ (ltb ak key) _ _
            (λ e'. left-Splits _ k v leaf _ (ground arith) (split-Splits (node al ak av ar)))
            (λ e'.
              rotate_left-Splits al ak av ar k v leaf _ (ground arith) (ground arith)
                (split-Splits al)))
  split-Splits (node (node al ak av ar) k v (node bl bk bv br)) =
      if-Splits _ (ltb k key) _ _
        (λ e.
          if-Splits _ (ltb bk key) _ _
            (λ e'.
              rotate_right-Splits (node al ak av ar) k v bl bk bv br _ (ground arith) (ground arith)
                (split-Splits br))
            (λ e'.
              right-Splits (node al ak av ar) k v _ _ (ground arith)
                (split-Splits (node bl bk bv br))))
        (λ e.
          if-Splits _ (ltb ak key) _ _
            (λ e'.
              left-Splits _ k v (node bl bk bv br) _ (ground arith)
                (split-Splits (node al ak av ar)))
            (λ e'.
              rotate_left-Splits al ak av ar k v (node bl bk bv br) _ (ground arith) (ground arith)
                (split-Splits al)))
