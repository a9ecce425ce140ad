-- ===== src/Splay/Refinement.antt =====
-- A splay tree as a finite map: what its operations do to the entry of every key, and the
-- invariant that they keep.
use gnuais.Common.{
  ℕ, ◌+◌, ◌<◌, ◌≡◌, ◌≢◌, refl, sym, ap, subst, ◌∙◌, inl, inr, Bool-cases, Option, Option-cases,
  none, some, List, [], ◌∷◌, ◌++◌, append-nil, arith, ltb, ◌==◌, ◌>>=◌, length, length-append,
}
use gnuais.Splay.{
  Tree, leaf, node, Up, Place, SpTree, Node, find, splay, splay_up, split, sp_lookup, sp_enq,
  install_found, sp_install, drop_root, sp_delete,
}
use gnuais.Splay.Sorted.{
  Below, Above, Sorted, Sorted-Around, Sorted-insert, Sorted-remove, assoc, assoc-here,
  assoc-elsewhere, assoc-Below, assoc-Above, absent-Above, All-weaken,
}
use gnuais.Splay.Order.{inorder, before, behind, inorder-splay, find-listing, inorder-deq_under}
use gnuais.Splay.Split.{split-Splits}

module _ {ℓ} {A : Type ℓ} where
  -- The keys ascend from left to right, and the nodes are counted.
  pub record IsValid (q : SpTree A) : Type 0 where
    pub sorted : Sorted (inorder q.root)
    pub counted : length (inorder q.root) ≡ q.eltscnt

  abbrev pub or_else : A → Option A → A
  or_else item none = item
  or_else item (some old) = old

  unfoldable pub item_of : Place A → Option A
  item_of n = some n.item

  skip : (key k : ℕ) (v : A) (es : List (Node A)) → key ≢ k → assoc key ((k, v) ∷ es) ≡ assoc key es
  skip key k v es ne = assoc-elsewhere key [] k v es ne

  pub find-assoc :
      (key : ℕ) (t : Tree A) (up : List (Up A))
      → Sorted (inorder t)
      → (find key t up >>= item_of) ≡ assoc key (inorder t)
  unfolding find inorder assoc item_of
  find-assoc key leaf up s = refl
  find-assoc key (node l k v r) up s =
      let around = Sorted-Around (inorder l) k v (inorder r) s in
      elim (Bool-cases (key == k)) [
        | inl same ↦
            let e : k ≡ key = ground arith in
            rw same (
              sym (
                subst (λ x. assoc x (inorder l ++ (k, v) ∷ inorder r) ≡ some v) e
                  (assoc-here (inorder l) k v (inorder r) around.below)))
        | inr other ↦ elim (Bool-cases (ltb key k)) [
          | inl low ↦
              rw (other, low)
                (find-assoc key l _ around.left
                  ∙ sym (
                      assoc-Above key (inorder l) ((k, v) ∷ inorder r) (
                        ground arith,
                        All-weaken (λ x. k < x.0) (λ x. key < x.0) (inorder r) (λ x p. ground arith)
                            around.above,
                      )))
          | inr high ↦
              rw (other, high)
                (find-assoc key r _ around.right
                  ∙ sym (
                      assoc-Below key (inorder l) ((k, v) ∷ inorder r) (
                        All-weaken (λ x. x.0 < k) (λ x. x.0 < key) (inorder l) (λ x p. ground arith)
                          around.below)
                      ∙ skip key k v (inorder r) (ground arith)))
        ]
      ]

  -- What `sp_lookup` finds, by what the search finds.
  pub lookup_none :
      (key : ℕ) (q : SpTree A) → find key q.root [] ≡ none → sp_lookup key q ≡ (none, q)
  unfolding sp_lookup
  lookup_none key q e = rw (e, sp_lookup)

  pub lookup_some :
      (key : ℕ) (q : SpTree A) (n : Place A)
      → find key q.root [] ≡ some n
      → sp_lookup key q ≡ (some n.item, record q { root = splay n })
  unfolding sp_lookup
  lookup_some key q n e = rw (e, sp_lookup)

  -- In an ordered tree, `sp_lookup` finds what the key is associated with, if anything.
  pub sp_lookup-assoc :
      (key : ℕ) (q : SpTree A)
      → Sorted (inorder q.root)
      → (sp_lookup key q).0 ≡ assoc key (inorder q.root)
  sp_lookup-assoc key q s =
      let searched = find-assoc key q.root [] s in
      elim (Option-cases (find key q.root [])) [
        | inl missing ↦ rw (lookup_none key q missing) (unfold item_of in rw missing at searched)
        | inr found ↦
            rw (lookup_some key q found.0 found.1) (unfold item_of in rw found.1 at searched)
      ]

  pub nothing_around : (es : List (Node A)) → before {A = A} [] ++ (es ++ behind {A = A} []) ≡ es
  unfolding before behind
  nothing_around es = append-nil es

  -- `sp_lookup` reorganizes the tree, but keeps its nodes and their order.
  pub inorder-sp_lookup :
      (key : ℕ) (q : SpTree A) → inorder ((sp_lookup key q).1.root) ≡ inorder q.root
  inorder-sp_lookup key q = elim (Option-cases (find key q.root [])) [
    | inl missing ↦ rw (lookup_none key q missing)
    | inr found ↦ rw (lookup_some key q found.0 found.1) (
        inorder-splay found.0
        ∙ (find-listing key q.root [] found.0 found.1 ∙ nothing_around (inorder q.root)))
  ]

  -- What installing a key does: the item stays if there is one.
  pub record Installs (key : ℕ) (item : A) (q q' : SpTree A) : Type ℓ where
    pub valid : IsValid q'
    pub here : assoc key (inorder q'.root) ≡ some (or_else item (assoc key (inorder q.root)))
    pub elsewhere :
        (other : ℕ) → other ≢ key → assoc other (inorder q'.root) ≡ assoc other (inorder q.root)

  enq-Installs :
      (key : ℕ) (item : A) (q : SpTree A)
      → IsValid q
      → assoc key (inorder q.root) ≡ none
      → Installs key item q (record { root = sp_enq key item q.root; eltscnt = q.eltscnt + 1 })
  unfolding sp_enq inorder
  enq-Installs key item q v absent =
      let s = split-Splits key q.root in
      let left : List (Node A) = inorder ((split key q.root).0) in
      let right : List (Node A) = inorder ((split key q.root).1) in
      let low : Below key left = s.low v.sorted in
      let missing : assoc key right ≡ none =
        sym (assoc-Below key left right low) ∙ (ap (assoc key) s.joins ∙ absent) in
      let high : Above key right = absent-Above key right (s.high v.sorted) missing in
      record {
        valid = record {
          sorted = Sorted-insert left key item right (rw s.joins v.sorted) low high;
          counted = omega (
            arith,
            length-append left ((key, item) ∷ right),
            length-append left right,
            v.counted,
            ap length s.joins,
          );
        };
        here = rw absent (assoc-here left key item right low);
        elsewhere =
            λ other ne. assoc-elsewhere other left key item right ne ∙ ap (assoc other) s.joins;
      }

  same-Installs :
      (key : ℕ) (item : A) (q : SpTree A) (n : Place A)
      → IsValid q
      → inorder (splay n) ≡ inorder q.root
      → assoc key (inorder q.root) ≡ some n.item
      → Installs key item q (record q { root = splay n })
  same-Installs key item q n v same present = record {
    valid = record { sorted = rw same v.sorted; counted = ap length same ∙ v.counted };
    here = rw (same, present);
    elsewhere = λ other ne. ap (assoc other) same;
  }

  -- In a valid tree, `sp_install` keeps the item that the key has, or else gives it the new one;
  -- no other key changes, and the tree stays valid.
  pub sp_install-Installs :
      (key : ℕ) (item : A) (q : SpTree A) → IsValid q → Installs key item q (sp_install key item q)
  unfolding install_found sp_install
  sp_install-Installs key item q v = elim (Option-cases (find key q.root [])) [
    | inl missing ↦
        let absent : none ≡ assoc key (inorder q.root) =
          unfold item_of in rw missing at (find-assoc key q.root [] v.sorted) in
        rw (lookup_none key q missing) (enq-Installs key item q v (sym absent))
    | inr found ↦
        let searched : some (found.0.item) ≡ assoc key (inorder q.root) =
          unfold item_of in rw found.1 at (find-assoc key q.root [] v.sorted) in
        let same = rw (lookup_some key q found.0 found.1) at (inorder-sp_lookup key q) in
        rw (lookup_some key q found.0 found.1)
          (same-Installs key item q found.0 v same (sym searched))
  ]

  pub inorder-drop_root :
      (l : Tree A) (k : ℕ) (v : A) (r : Tree A)
      → inorder (drop_root (node l k v r)) ≡ inorder l ++ inorder r
  unfolding drop_root inorder
  inorder-drop_root l k v leaf = sym (append-nil (inorder l))
  inorder-drop_root l k v (node rl rk rv rr) =
      ap (λ es. inorder l ++ es) (inorder-deq_under rl rk rv rr)

  -- What deleting a key does.
  pub record Deletes (key : ℕ) (q q' : SpTree A) : Type ℓ where
    pub valid : IsValid q'
    pub gone : assoc key (inorder q'.root) ≡ none
    pub elsewhere :
        (other : ℕ) → other ≢ key → assoc other (inorder q'.root) ≡ assoc other (inorder q.root)

  -- In a valid tree, `sp_delete` of a node that the search finds removes that key and no other, and
  -- leaves a valid tree.
  pub sp_delete-Deletes :
      (q : SpTree A) (n : Place A)
      → IsValid q
      → find n.key q.root [] ≡ some n
      → Deletes n.key q (sp_delete n q)
  unfolding sp_delete splay inorder assoc
  sp_delete-Deletes q n v found =
      let parts = splay_up n.leftlink n.rightlink n.uplinks in
      let left : List (Node A) = inorder parts.0 in
      let right : List (Node A) = inorder parts.1 in
      let all : left ++ (n.key, n.item) ∷ right ≡ inorder q.root =
        inorder-splay n
        ∙ (find-listing n.key q.root [] n found ∙ nothing_around (inorder q.root)) in
      let rest : inorder (drop_root (node parts.0 n.key n.item parts.1)) ≡ left ++ right =
        inorder-drop_root parts.0 n.key n.item parts.1 in
      let sorted = rw (← all) at v.sorted in
      let around = Sorted-Around left n.key n.item right sorted in
      record {
        valid = record {
          sorted = rw rest (Sorted-remove left (n.key, n.item) right sorted);
          counted = omega (
            arith,
            ap length rest,
            length-append left right,
            ap length all,
            length-append left ((n.key, n.item) ∷ right),
            v.counted,
          );
        };
        gone =
            rw rest
              (assoc-Below n.key left right around.below ∙ assoc-Above n.key [] right around.above);
        elsewhere = λ other ne.
            rw rest (sym (assoc-elsewhere other left n.key n.item right ne) ∙ ap (assoc other) all);
      }
