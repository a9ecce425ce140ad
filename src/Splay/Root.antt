-- ===== src/Splay/Root.antt =====
-- The node that `sp_lookup` or `sp_install` returns is the root of the tree, so that a caller that
-- stores into the node changes the root's item.
use gnuais.Common.{
  ℕ, ◌≡◌, refl, subst, inl, inr, Bool-cases, Option, Option-cases, none, some, List, [], ◌∷◌, ◌++◌,
  arith, ltb, ◌==◌,
}
use gnuais.Splay.{
  Tree, leaf, node, Up, Place, SpTree, Node, find, splay, sp_enq, install_found, sp_install,
}
use gnuais.Splay.Sorted.{Sorted, Sorted-Around, Sorted-insert, Sorted-remove}
use gnuais.Splay.Refinement.{lookup_none, lookup_some}

module _ {ℓ} {A : Type ℓ} where
  -- A tree with a key at its root.
  pub data RootedAt (key : ℕ) : Tree A → Type ℓ where
    rooted : (l : Tree A) (item : A) (r : Tree A) → RootedAt key (node l key item r)

  unfoldable pub key_or : ℕ → Option (Place A) → ℕ
  key_or key none = key
  key_or key (some n) = n.key

  pub find-key : (key : ℕ) (t : Tree A) (up : List (Up A)) → key_or key (find key t up) ≡ key
  unfolding find key_or
  find-key key leaf up = refl
  find-key key (node l k v r) up = elim (Bool-cases (key == k)) [
    | inl same ↦ rw same (ground arith)
    | inr other ↦ elim (Bool-cases (ltb key k)) [
      | inl low ↦ rw (other, low) (find-key key l _)
      | inr high ↦ rw (other, high) (find-key key r _)
    ]
  ]

  splay-RootedAt : (key : ℕ) (n : Place A) → n.key ≡ key → RootedAt key (splay n)
  unfolding splay
  splay-RootedAt key n e = subst (λ k. RootedAt k (splay n)) e (rooted _ n.item _)

  pub sp_install-RootedAt :
      (key : ℕ) (item : A) (q : SpTree A) → RootedAt key ((sp_install key item q).root)
  unfolding sp_install install_found sp_enq
  sp_install-RootedAt key item q = elim (Option-cases (find key q.root [])) [
    | inl missing ↦ rw (lookup_none key q missing) (rooted _ item _)
    | inr found ↦
        let same : found.0.key ≡ key = unfold key_or in rw found.1 at (find-key key q.root []) in
        rw (lookup_some key q found.0 found.1) (splay-RootedAt key found.0 same)
  ]

  -- Another item at a key.
  pub Sorted-change :
      (xs : List (Node A)) (k : ℕ) (v w : A) (ys : List (Node A))
      → Sorted (xs ++ (k, v) ∷ ys)
      → Sorted (xs ++ (k, w) ∷ ys)
  Sorted-change xs k v w ys s =
      let around = Sorted-Around xs k v ys s in
      Sorted-insert xs k w ys (Sorted-remove xs (k, v) ys s) around.below around.above
