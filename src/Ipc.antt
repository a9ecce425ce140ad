-- ===== src/Ipc.antt =====
-- src/ipc.c: the map programs that connect to the local socket, and what is written to them. The
-- thread that accepts them runs between the writes; what `accept` returns is given.
pub mod Clients
use gnuais.Common.{
  ℕ, zero, suc, ◌+◌, ◌-◌, Bool, Option, none, some, List, [], ◌∷◌, ltb, if◌then◌else◌, ◌>>=◌,
  get_elem?, store,
}

-- struct ipc_state_t
pub record IpcState : Type 0 where
  pub numclientsockets : ℕ
  pub clientsocket : List ℕ

abbrev pub max_client_sockets : ℕ
max_client_sockets = 20

-- `gnuais_ipc_init` when the socket could be set up, with what the array holds.
unfoldable pub gnuais_ipc_init : (array : List ℕ) → IpcState
gnuais_ipc_init array = record { numclientsockets = 0; clientsocket = array }

-- The loop of `gnuais_ipc_socketlistener` over the descriptors that `accept` returns, up to its first
-- error. `none` is a write outside of the array.
unfoldable pub socketlistener : List ℕ → IpcState → Option IpcState
socketlistener [] s = some s
socketlistener (connection_fd ∷ fds) s =
    let rest : Option IpcState = (do
      clientsocket ← store s.clientsocket s.numclientsockets connection_fd
      socketlistener fds
          (record { numclientsockets = s.numclientsockets + 1; clientsocket = clientsocket })) in
    if ltb s.numclientsockets (max_client_sockets - 2) then rest else some s

-- The loop of `ipc_write` from client `i` on, with `left` to go: the descriptors and the bytes.
unfoldable pub write_loop : (buffer : List ℕ) → IpcState → (left i : ℕ) → Option (List (ℕ × List ℕ))
write_loop buffer s zero i = some []
write_loop buffer s (suc left) i = do
  fd ← get_elem? s.clientsocket i
  rest ← write_loop buffer s left (i + 1)
  some ((fd, buffer) ∷ rest)

unfoldable pub ipc_write : (buffer : List ℕ) → IpcState → Option (List (ℕ × List ℕ))
unfolding write_loop
ipc_write buffer s = write_loop buffer s s.numclientsockets 0
