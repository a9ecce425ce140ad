-- ===== src/Json/Pieces.antt =====
-- The pieces of the texts that `jsonout_export` of src/out_json.c appends: members of an object,
-- and messages with a separator between each two.
use gnuais.Common.{
  ℕ, zero, suc, ◌+◌, ◌≤◌, ◌≡◌, refl, sym, ap, ap₂, ◌∙◌, Bool, true, false, Option, none, some, List,
  [], ◌∷◌, ◌++◌, append_assoc, append-nil, arith, ℤ, length, take, codes, length-append,
  length-take,
}
use gnuais.Json.{Tm, Libc, Exporter, append_if, append_string, separator}

-- What the export relies on: gmtime_r knows all times, and "%d" prints an int in 11 bytes at most.
pub record Prints (lib : Libc) : Type 0 where
  pub tm : ℕ → Tm
  pub knows : (t : ℕ) → lib.gmtime t ≡ some (tm t)
  pub int_short : (n : ℤ) → length (lib.print_int n) ≤ 11

-- A formatted text, as far as `str_append` takes it.
abbrev pub clip : List ℕ → List ℕ
clip s = take (8191) s

-- Texts one after the other, from the `k`-th on.
unfoldable pub glue : (k : ℕ) → List (List ℕ) → List ℕ
glue k [] = []
glue k (m ∷ ms) = separator k ++ (m ++ glue (k + 1) ms)

-- The exporter has gone on by some messages.
pub record Emits (ms : List (List ℕ)) (st st' : Exporter) : Type 0 where
  pub json : st'.json ≡ st.json ++ glue st.exported ms
  pub exported : st'.exported ≡ st.exported + length ms

pub Emits-nothing : (st : Exporter) → Emits [] st st
unfolding glue
Emits-nothing st = record { json = sym (append-nil st.json); exported = omega arith }

glue-append :
    (k : ℕ) (ms ns : List (List ℕ)) → glue k (ms ++ ns) ≡ glue k ms ++ glue (k + length ms) ns
unfolding glue
glue-append k [] ns = ap (λ n. glue n ns) (omega arith)
glue-append k (m ∷ ms) ns =
    let next : k + 1 + length ms ≡ k + length (m ∷ ms) = omega arith in
    rw (glue-append (k + 1) ms ns, next) (simp append_assoc refl)

pub Emits-both :
    {ms ns : List (List ℕ)} {st st' st'' : Exporter}
    → Emits ms st st'
    → Emits ns st' st''
    → Emits (ms ++ ns) st st''
Emits-both {ms} {ns} {st} {st'} {st''} a b = record {
  json =
      b.json
      ∙ (ap₂ (λ s k. s ++ glue k ns) a.json a.exported
          ∙ (append_assoc st.json (glue st.exported ms) (glue (st.exported + length ms) ns)
              ∙ ap (λ s. st.json ++ s) (sym (glue-append st.exported ms ns))));
  exported = omega (arith, a.exported, b.exported, length-append ms ns);
}

pub take-all {ℓ} : {A : Type ℓ} (n : ℕ) (xs : List A) → length xs ≤ n → take n xs ≡ xs
take-all zero [] h = refl
take-all zero (x ∷ xs) h = absurd (omega arith)
take-all (suc n) [] h = refl
take-all (suc n) (x ∷ xs) h = ap (λ ys. x ∷ ys) (take-all n xs (omega arith))

pub length-take_le {ℓ} : {A : Type ℓ} (n : ℕ) (xs : List A) → length (take n xs) ≤ n
length-take_le n xs = omega (arith, length-take n xs)

-- A member of an object behind the first one.
abbrev pub member : (name value : List ℕ) → List ℕ
member name value = codes ", \"" ++ name ++ codes "\": " ++ value

abbrev pub quoted : List ℕ → List ℕ
quoted s = codes "\"" ++ s ++ codes "\""

-- Members that are there on a condition, and a member with a string that may be absent.
pub data Member : Type 0 where
  on : Bool → List ℕ → Member
  string : (name : List ℕ) → Option (List ℕ) → Member

unfoldable pub member_text : Member → List ℕ
member_text (on true s) = clip s
member_text (on false s) = []
member_text (string name (some s)) = clip (member name (quoted s))
member_text (string name none) = []

unfoldable pub members_text : List Member → List ℕ
unfolding member_text
members_text [] = []
members_text (m ∷ ms) = member_text m ++ members_text ms

unfoldable pub append_member : Member → List ℕ → List ℕ
unfolding append_if append_string
append_member (on b s) json = append_if b s json
append_member (string name o) json = append_string name o json

unfoldable pub append_members : List Member → List ℕ → List ℕ
unfolding append_member
append_members [] json = json
append_members (m ∷ ms) json = append_members ms (append_member m json)

append_member-member_text :
    (m : Member) (json : List ℕ) → append_member m json ≡ json ++ member_text m
unfolding append_member member_text
append_member-member_text (on true s) json = refl
append_member-member_text (on false s) json = sym (append-nil json)
append_member-member_text (string name (some s)) json =
    let same : codes ", \"" ++ name ++ codes "\": \"" ++ s ++ codes "\"" ≡ member name (quoted s) =
      simp append_assoc refl in
    ap (λ t. json ++ clip t) same
append_member-member_text (string name none) json = sym (append-nil json)

pub append_members-members_text :
    (ms : List Member) (json : List ℕ) → append_members ms json ≡ json ++ members_text ms
unfolding append_members members_text
append_members-members_text [] json = sym (append-nil json)
append_members-members_text (m ∷ ms) json =
    append_members-members_text ms (append_member m json)
    ∙ (ap (λ s. s ++ members_text ms) (append_member-member_text m json)
        ∙ append_assoc json (member_text m) (members_text ms))

pub separator_short : (k : ℕ) → length (separator k) ≤ 2
unfolding separator
separator_short zero = omega arith
separator_short (suc k) = grind arith

-- The texts of a message in the order in which they are written.
pub in_order :
    (json o a i b t c m e : List ℕ)
    → ((json ++ (o ++ a ++ i ++ b ++ t ++ c)) ++ m) ++ e
      ≡ json ++ (o ++ (a ++ (i ++ ((b ++ t ++ c) ++ (m ++ e)))))
in_order json o a i b t c m e = simp append_assoc refl
