-- ===== src/Ipc/Clients.antt =====
-- The clients of src/ipc.c: which connections are served.
use gnuais.Common.{
  ℕ, zero, suc, ◌+◌, ◌≡◌, refl, ap, ◌∙◌, true, false, some, List, [], ◌∷◌, ◌++◌, map, append-nil,
  append_assoc, arith, ltb, ◌>>=◌, length, take, get_elem?, store, length-append, store_after,
}
use gnuais.Ipc.{IpcState, gnuais_ipc_init, socketlistener, write_loop, ipc_write}

-- The state with the clients `got`.
abbrev serving : (got rest : List ℕ) → IpcState
serving got rest = record { numclientsockets = length got; clientsocket = got ++ rest }

get_elem?-after :
    (pre : List ℕ) (x : ℕ) (xs : List ℕ) → get_elem? (pre ++ x ∷ xs) (length pre) ≡ some x
get_elem?-after [] x xs = refl
get_elem?-after (p ∷ pre) x xs = get_elem?-after pre x xs

-- The listener with room for `k` more clients.
socketlistener-serving :
    (fds got rest : List ℕ) (k n : ℕ)
    → n ≡ length got
    → n + k ≡ 18
    → length rest ≡ k + 2
    → (rest' : List ℕ) × (socketlistener fds
          (record { numclientsockets = n; clientsocket = got ++ rest })
        ≡ some (serving (got ++ take k fds) rest'))
unfolding socketlistener
socketlistener-serving [] got rest zero n e size room = (rest, rw (append-nil, e) refl)
socketlistener-serving [] got rest (suc k) n e size room = (rest, rw (append-nil, e) refl)
socketlistener-serving (fd ∷ fds) got rest zero n e size room =
    let full : ltb n 18 ≡ false = ground arith in (rest, rw (full, append-nil, e) refl)
socketlistener-serving (fd ∷ fds) got [] (suc k) n e size room = absurd (omega arith)
socketlistener-serving (fd ∷ fds) got (r ∷ rest) (suc k) n e size room =
    let more : ltb n 18 ≡ true = ground arith in
    let stored : store (got ++ r ∷ rest) n fd ≡ some ((got ++ fd ∷ []) ++ rest) =
      rw (e, store_after got rest r fd, append_assoc) refl in
    let (rest', done) =
      socketlistener-serving fds (got ++ fd ∷ []) rest k (n + 1)
        (omega (arith, length-append got (fd ∷ []))) (omega arith) (omega arith) in
    (
      rest',
      rw (more, stored)
          (done ∙ ap (λ l. some (serving l rest')) (append_assoc got (fd ∷ []) (take k fds))),
    )

write_loop-clients :
    (buffer pre got rest : List ℕ) (n : ℕ)
    → write_loop buffer
        (record { numclientsockets = n; clientsocket = pre ++ (got ++ rest) })
        (length got)
        (length pre)
      ≡ some (map (λ fd. (fd, buffer)) got)
unfolding write_loop
write_loop-clients buffer pre [] rest n = refl
write_loop-clients buffer pre (fd ∷ got) rest n =
    let next = write_loop-clients buffer (pre ++ fd ∷ []) got rest n in
    let size : length (pre ++ fd ∷ []) ≡ length pre + 1 = length-append pre (fd ∷ []) in
    rw (get_elem?-after pre fd (got ++ rest), rw (size, append_assoc) at next)

-- For an array of 20 descriptors: whatever connections are accepted, the listener writes nothing
-- outside of the array, and what is written afterwards goes to the first 18 of them, each once and
-- in the order in which they came.
pub ipc_write-clients :
    (fds array buffer : List ℕ)
    → length array ≡ 20
    → (socketlistener fds (gnuais_ipc_init array) >>= ipc_write buffer)
      ≡ some (map (λ fd. (fd, buffer)) (take 18 fds))
unfolding gnuais_ipc_init ipc_write
ipc_write-clients fds array buffer size =
    let (rest, done) =
      socketlistener-serving fds [] array 18 0 refl (omega arith) (omega (arith, size)) in
    rw done (write_loop-clients buffer [] (take 18 fds) rest (length (take 18 fds)))
