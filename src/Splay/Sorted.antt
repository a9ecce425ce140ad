-- ===== src/Splay/Sorted.antt =====
-- Lists of keys with their data, in ascending order of the keys: what a search tree stands for.
use gnuais.Common.{
  ℕ, ◌≤◌, ◌<◌, ◌≡◌, ◌≢◌, refl, true, false, inl, inr, Bool-cases, Option, none, some, List, [], ◌∷◌,
  ◌++◌, arith, ◌==◌, if◌then◌else◌, All, All-append,
}
use gnuais.Splay.{Node}

module _ {ℓ} {A : Type ℓ} where
  abbrev pub Below : ℕ → List (Node A) → Type 0
  Below key es = All (λ e. e.0 < key) es

  abbrev pub Above : ℕ → List (Node A) → Type 0
  Above key es = All (λ e. key < e.0) es

  abbrev pub NotBelow : ℕ → List (Node A) → Type 0
  NotBelow key es = All (λ e. key ≤ e.0) es

  abbrev pub Sorted : List (Node A) → Type 0
  Sorted [] = Unit
  Sorted (e ∷ es) = Above e.0 es × Sorted es

  -- The data of the first entry with a key.
  unfoldable pub assoc : (key : ℕ) → List (Node A) → Option A
  assoc key [] = none
  assoc key ((k, v) ∷ es) = if k == key then some v else assoc key es

  pub All-weaken :
      (P Q : Node A → Type 0) (es : List (Node A))
      → ((e : Node A) → P e → Q e)
      → All P es
      → All Q es
  All-weaken P Q [] f p = tt
  All-weaken P Q (e ∷ es) f p = (f e p.0, All-weaken P Q es f p.1)

  pub All-apart :
      (P : Node A → Type 0) (xs ys : List (Node A)) → All P (xs ++ ys) → All P xs × All P ys
  All-apart P [] ys p = (tt, p)
  All-apart P (x ∷ xs) ys p = let rest = All-apart P xs ys p.1 in ((p.0, rest.0), rest.1)

  -- What the order of a list says of an entry in it.
  pub record Around (xs : List (Node A)) (key : ℕ) (ys : List (Node A)) : Type 0 where
    pub below : Below key xs
    pub left : Sorted xs
    pub above : Above key ys
    pub right : Sorted ys

  pub Sorted-Around :
      (xs : List (Node A)) (k : ℕ) (v : A) (ys : List (Node A))
      → Sorted (xs ++ (k, v) ∷ ys)
      → Around xs k ys
  Sorted-Around [] k v ys p = record { below = tt; left = tt; above = p.0; right = p.1 }
  Sorted-Around (x ∷ xs) k v ys p =
      let rest = Sorted-Around xs k v ys p.1 in
      let parts = All-apart (λ e. x.0 < e.0) xs ((k, v) ∷ ys) p.0 in
      record {
        below = (parts.1.0, rest.below);
        left = (parts.0, rest.left);
        above = rest.above;
        right = rest.right;
      }

  pub Sorted-insert :
      (xs : List (Node A)) (k : ℕ) (v : A) (ys : List (Node A))
      → Sorted (xs ++ ys)
      → Below k xs
      → Above k ys
      → Sorted (xs ++ (k, v) ∷ ys)
  Sorted-insert [] k v ys p b a = (a, p)
  Sorted-insert (x ∷ xs) k v ys p b a =
      let parts = All-apart (λ e. x.0 < e.0) xs ys p.0 in
      (
        All-append (λ e. x.0 < e.0) xs ((k, v) ∷ ys) parts.0 (b.0, parts.1),
        Sorted-insert xs k v ys p.1 b.1 a,
      )

  pub Sorted-remove :
      (xs : List (Node A)) (e : Node A) (ys : List (Node A))
      → Sorted (xs ++ e ∷ ys)
      → Sorted (xs ++ ys)
  Sorted-remove [] e ys p = p.1
  Sorted-remove (x ∷ xs) e ys p =
      let parts = All-apart (λ d. x.0 < d.0) xs (e ∷ ys) p.0 in
      (All-append (λ d. x.0 < d.0) xs ys parts.0 parts.1.1, Sorted-remove xs e ys p.1)

  pub assoc-here :
      (xs : List (Node A)) (k : ℕ) (v : A) (ys : List (Node A))
      → Below k xs
      → assoc k (xs ++ (k, v) ∷ ys) ≡ some v
  unfolding assoc
  assoc-here [] k v ys b = let same : (k == k) ≡ true = ground arith in rw same
  assoc-here (x ∷ xs) k v ys b =
      let other : (x.0 == k) ≡ false = ground (arith, b.0) in rw other (assoc-here xs k v ys b.1)

  pub assoc-elsewhere :
      (key : ℕ) (xs : List (Node A)) (k : ℕ) (v : A) (ys : List (Node A))
      → key ≢ k
      → assoc key (xs ++ (k, v) ∷ ys) ≡ assoc key (xs ++ ys)
  unfolding assoc
  assoc-elsewhere key [] k v ys ne = let other : (k == key) ≡ false = ground arith in rw other
  assoc-elsewhere key (x ∷ xs) k v ys ne = rw (assoc-elsewhere key xs k v ys ne)

  pub assoc-Below :
      (key : ℕ) (xs ys : List (Node A)) → Below key xs → assoc key (xs ++ ys) ≡ assoc key ys
  unfolding assoc
  assoc-Below key [] ys b = refl
  assoc-Below key (x ∷ xs) ys b =
      let other : (x.0 == key) ≡ false = ground (arith, b.0) in rw other (assoc-Below key xs ys b.1)

  pub assoc-Above :
      (key : ℕ) (xs ys : List (Node A)) → Above key ys → assoc key (xs ++ ys) ≡ assoc key xs
  unfolding assoc
  assoc-Above key [] [] a = refl
  assoc-Above key [] (y ∷ ys) a =
      let other : (y.0 == key) ≡ false = ground (arith, a.0) in rw other (assoc-Above key [] ys a.1)
  assoc-Above key (x ∷ xs) ys a = rw (assoc-Above key xs ys a)

  -- A key that is not there and below nothing is below everything.
  pub absent-Above :
      (key : ℕ) (ys : List (Node A)) → NotBelow key ys → assoc key ys ≡ none → Above key ys
  unfolding assoc
  absent-Above key [] p e = tt
  absent-Above key (y ∷ ys) p e = elim (Bool-cases (y.0 == key)) [
    | inl same ↦ absurd (let h = rw same at e in cc)
    | inr other ↦ (ground (arith, p.0), absent-Above key ys p.1 (rw other at e))
  ]
