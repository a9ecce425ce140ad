-- ===== src/Protodec/Decode/Pieces.antt =====
-- The loop of `protodec_decode` over bits that arrive in pieces.
use gnuais.Common.{
  ℕ, ◌≡◌, refl, sym, ap, Option, none, some, List, [], ◌∷◌, ◌++◌, append_assoc, ◌>>=◌,
}
use gnuais.Protodec.Types.{Call, Env, Demod}
use gnuais.Protodec.Decode.{decode_bit, decode}

abbrev pub joining : List Call → Demod × List Call → Option (Demod × List Call)
joining calls (d, more) = some (d, calls ++ more)

pub joining_twice :
    (o : Option (Demod × List Call)) (calls calls' : List Call)
    → (o >>= joining (calls ++ calls')) ≡ (o >>= joining calls' >>= joining calls)
joining_twice none calls calls' = refl
joining_twice (some (d, more)) calls calls' =
    ap (λ (c : List Call). some (d, c)) (append_assoc calls calls' more)

pub joining_later :
    (o : Option (Demod × List Call)) (calls : List Call) (g : Demod → Option (Demod × List Call))
    → (o >>= joining calls >>= λ (d, c). g d >>= joining c)
      ≡ ((o >>= λ (d, c). g d >>= joining c) >>= joining calls)
joining_later none calls g = refl
joining_later (some (d, more)) calls g = joining_twice (g d) calls more

pub joining_nil : (o : Option (Demod × List Call)) → o ≡ (o >>= joining [])
joining_nil none = refl
joining_nil (some x) = refl

pub decode_step :
    (env : Env) (o : Option (Demod × List Call)) (xs ys : List ℕ)
    → ((d : Demod)
        → decode env (xs ++ ys) d ≡ (decode env xs d >>= λ (d', c). decode env ys d' >>= joining c))
    → (o >>= λ (d, c). decode env (xs ++ ys) d >>= joining c) ≡ (
        o >>= (λ (d, c). decode env xs d >>= joining c) >>= λ (d', c).
        decode env ys d' >>= joining c)
decode_step env none xs ys h = refl
decode_step env (some (d, calls)) xs ys h =
    rw (h d) (sym (joining_later (decode env xs d) calls (λ d. decode env ys d)))

-- Decoding bits in two parts, one after the other, is decoding them at once: the same state, the
-- same faults, and the calls of the second part after those of the first.
pub decode-append :
    (env : Env) (xs ys : List ℕ) (d : Demod)
    → decode env (xs ++ ys) d
      ≡ (decode env xs d >>= λ (d', calls). decode env ys d' >>= joining calls)
unfolding decode
decode-append env [] ys d = joining_nil (decode env ys d)
decode-append env (x ∷ xs) ys d =
    decode_step env (decode_bit env x d) xs ys (decode-append env xs ys)

pub decode_silent :
    (env : Env) (xs ys : List ℕ) (d d' : Demod)
    → decode env xs d ≡ some (d', [])
    → decode env (xs ++ ys) d ≡ decode env ys d'
decode_silent env xs ys d d' e =
    rw (decode-append env xs ys d, e) (sym (joining_nil (decode env ys d')))
