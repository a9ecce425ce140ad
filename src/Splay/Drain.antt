-- ===== src/Splay/Drain.antt =====
-- The loop of `cache_free` in src/cache.c and of `jsonout_export` in src/out_json.c, which visits
-- the nodes of a tree in order and deletes each one on the way.
use gnuais.Common.{
  ℕ, zero, suc, ◌≤◌, ◌≡◌, refl, sym, ap, ap₂, subst, ◌∙◌, inl, inr, Option, Option-cases, none,
  some, List, [], ◌∷◌, ◌++◌, append_assoc, arith, ◌>>=◌, length, length-append,
}
use gnuais.Splay.{
  Tree, leaf, node, Place, SpTree, Node, find, splay, sp_delete, sp_fhead, sp_fnext, sp_init,
}
use gnuais.Splay.Sorted.{Sorted, Sorted-Around, assoc, assoc-here}
use gnuais.Splay.Order.{
  inorder, before, behind, listing, find-listing, splay_up-left, splay_up-right,
}
use gnuais.Splay.Refinement.{
  IsValid, sp_delete-Deletes, inorder-drop_root, nothing_around, find-assoc,
}
use gnuais.Splay.Root.{key_or, find-key}
use gnuais.Splay.Walk.{onward, onward-sp_fhead, onward-sp_fnext}

module _ {ℓ} {A : Type ℓ} where
  -- The pointer `x`, as the key of its node.
  unfoldable pub pointer : Option (Place A) → Option ℕ
  pointer none = none
  pointer (some n) = some n.key

  -- `for (x = ...; x != NULL; x = nextx) { nextx = sp_fnext(x); ...; sp_delete(x, sp); }`: the nodes
  -- that are visited, and the tree that is left. `none` is a node that is not in the tree any more.
  -- The fuel is the number of nodes.
  unfoldable pub drain_from : (fuel : ℕ) → Option ℕ → SpTree A → Option (List (Node A) × SpTree A)
  unfolding pointer
  drain_from fuel none q = some ([], q)
  drain_from zero (some x) q = none
  drain_from (suc fuel) (some x) q = do
    n ← find x q.root []
    let nextx = pointer (sp_fnext n)
    (visited, q') ← drain_from fuel nextx (sp_delete n q)
    some ((n.key, n.item) ∷ visited, q')

  unfoldable pub drain : SpTree A → Option (List (Node A) × SpTree A)
  unfolding drain_from
  drain q = drain_from q.eltscnt (pointer (sp_fhead q)) q

  first_key : List (Node A) → Option ℕ
  first_key [] = none
  first_key (e ∷ es) = some e.0

  pointer-onward : (o : Option (Place A)) → pointer o ≡ first_key (onward o)
  unfolding pointer first_key onward
  pointer-onward none = refl
  pointer-onward (some n) = refl

  inorder-sp_delete :
      (n : Place A) (q : SpTree A)
      → inorder ((sp_delete n q).root)
        ≡ (before n.uplinks ++ inorder n.leftlink) ++ (inorder n.rightlink ++ behind n.uplinks)
  unfolding sp_delete splay
  inorder-sp_delete n q =
      inorder-drop_root _ n.key n.item _
      ∙ ap₂ (λ xs ys. xs ++ ys) (splay_up-left n.leftlink n.rightlink n.uplinks)
          (splay_up-right n.leftlink n.rightlink n.uplinks)

  key_at : List (Node A) → ℕ
  key_at [] = 0
  key_at (e ∷ es) = e.0

  -- An entry with the first key of a sorted list is the first one.
  first_alone :
      (xs : List (Node A)) (k : ℕ) (v : A) (ys es : List (Node A)) (first : Node A)
      → Sorted (xs ++ (k, v) ∷ ys)
      → k ≡ first.0
      → xs ++ (k, v) ∷ ys ≡ first ∷ es
      → xs ≡ []
  unfolding key_at
  first_alone [] k v ys es first s h e = refl
  first_alone (x ∷ xs) k v ys es first s h e =
      let around = Sorted-Around (x ∷ xs) k v ys s in
      absurd (omega (arith, around.below.0, ap key_at e, h))

  behind_first : List (Node A) → List (Node A)
  behind_first [] = []
  behind_first (e ∷ es) = es

  front_or : Node A → List (Node A) → Node A
  front_or d [] = d
  front_or d (e ∷ es) = e

  -- What the visit of the first node does.
  record First (q : SpTree A) (first : Node A) (es : List (Node A)) (n : Place A) : Type ℓ where
    is_first : (n.key, n.item) ≡ first
    onwards : onward (sp_fnext n) ≡ es
    valid : IsValid (sp_delete n q)
    rest : inorder ((sp_delete n q).root) ≡ es

  find-First :
      (q : SpTree A) (first : Node A) (es : List (Node A))
      → IsValid q
      → inorder q.root ≡ first ∷ es
      → (n : Place A) → find (first.0) q.root [] ≡ some n
      → First q first es n
  unfolding listing
  find-First q first es v e n found =
      let same : n.key ≡ first.0 = unfold key_or in rw found at (find-key (first.0) q.root []) in
      let xs = before n.uplinks ++ inorder n.leftlink in
      let ys = inorder n.rightlink ++ behind n.uplinks in
      let all : xs ++ (n.key, n.item) ∷ ys ≡ first ∷ es =
        append_assoc (before n.uplinks) (inorder n.leftlink) ((n.key, n.item) ∷ ys)
        ∙ (find-listing (first.0) q.root [] n found ∙ (nothing_around (inorder q.root) ∙ e)) in
      let placed : Sorted (xs ++ (n.key, n.item) ∷ ys) =
        subst Sorted (sym all) (subst Sorted e v.sorted) in
      let alone : xs ≡ [] = first_alone xs n.key n.item ys es first placed same all in
      let whole : (n.key, n.item) ∷ ys ≡ first ∷ es =
        ap (λ zs. zs ++ (n.key, n.item) ∷ ys) (sym alone) ∙ all in
      let tail : ys ≡ es = unfold behind_first in ap behind_first whole in
      record {
        is_first = unfold front_or in ap (front_or (n.key, n.item)) whole;
        onwards = onward-sp_fnext n ∙ tail;
        valid =
            (sp_delete-Deletes q n v
              (subst (λ k. find k q.root [] ≡ some n) (sym same) found)).valid;
        rest = inorder-sp_delete n q ∙ (ap (λ zs. zs ++ ys) alone ∙ tail);
      }

  no_node : (t : Tree A) → inorder t ≡ [] → t ≡ leaf
  unfolding inorder
  no_node leaf h = refl
  no_node (node l k w r) h =
      absurd (omega (arith, ap length h, length-append (inorder l) ((k, w) ∷ inorder r)))

  -- A tree without a node.
  empty_tree : (q : SpTree A) → IsValid q → inorder q.root ≡ [] → q ≡ sp_init
  unfolding sp_init
  empty_tree q v e =
      ap₂ (λ t n. record { root = t; eltscnt = n }) (no_node q.root e) (sym v.counted ∙ ap length e)

  drain_from-inorder :
      (es : List (Node A)) (q : SpTree A) (fuel : ℕ)
      → IsValid q
      → inorder q.root ≡ es
      → length es ≤ fuel
      → drain_from fuel (first_key es) q ≡ some (es, sp_init)
  unfolding drain_from first_key
  drain_from-inorder [] q fuel v e h = ap (λ t. some ([], t)) (empty_tree q v e)
  drain_from-inorder (first ∷ es) q zero v e h = absurd (omega arith)
  drain_from-inorder (first ∷ es) q (suc fuel) v e h =
      let searched = find-assoc (first.0) q.root [] v.sorted in
      elim (Option-cases (find (first.0) q.root [])) [
        | inl missing ↦
            let present : assoc (first.0) (inorder q.root) ≡ some (first.1) =
              ap (assoc (first.0)) e ∙ assoc-here [] (first.0) (first.1) es tt in
            let lost : none ≡ assoc (first.0) (inorder q.root) = rw missing at searched in
            absurd (cc (lost ∙ present))
        | inr found ↦
            let n = found.0 in
            let f = find-First q first es v e n found.1 in
            let next : pointer (sp_fnext n) ≡ first_key es =
              pointer-onward (sp_fnext n) ∙ ap first_key f.onwards in
            rw (
              found.1,
              next,
              drain_from-inorder es (sp_delete n q) fuel f.valid f.rest (omega arith),
              f.is_first,
            )
      ]

  -- The loop visits every node of a valid tree once, in the order of the keys, never follows a
  -- pointer to a node that it has deleted, and leaves the tree empty.
  pub drain-inorder : (q : SpTree A) → IsValid q → drain q ≡ some (inorder q.root, sp_init)
  unfolding drain
  drain-inorder q v =
      let start : pointer (sp_fhead q) ≡ first_key (inorder q.root) =
        pointer-onward (sp_fhead q) ∙ ap first_key (onward-sp_fhead q) in
      rw start (drain_from-inorder (inorder q.root) q q.eltscnt v refl (omega (arith, v.counted)))
