-- ===== src/Server/Startup.antt =====
-- The ready bits of src/server/server/vineyard_server.cc: the servers for the clients are started once
-- the metadata service and the blob store are both up.
use libvineyard.Base.{
  ℕ, suc, bit_and, bit_or, Bool, true, false, not, ◌&&◌, Option, none, some, List, [], ◌∷◌, ◌==◌,
  if◌then◌else◌, chain, ◌≡◌, refl, arith,
}

abbrev pub k_meta : ℕ
k_meta = 0b1

abbrev pub k_bulk : ℕ
k_bulk = 0b10

abbrev pub k_ipc : ℕ
k_ipc = 0b100

abbrev pub k_rpc : ℕ
k_rpc = 0b1000

abbrev pub k_backend_ready : ℕ
k_backend_ready = 0b11

-- The part of `VineyardServer` that starting and stopping change. `Ready` does nothing.
pub record Server : Type 0 where
  pub ready : ℕ
  pub ipc_server : Bool
  pub rpc_server : Bool
  pub io_error : Bool
  pub context_stopped : Bool
  pub stopped : Bool

abbrev pub new_server : Server
new_server = record {
  ready = 0;
  ipc_server = false;
  rpc_server = false;
  io_error = false;
  context_stopped = false;
  stopped = false;
}

-- Whether the constructors of the two servers can open their sockets, or throw.
pub record Sockets : Type 0 where
  pub ipc_starts : Bool
  pub rpc_starts : Bool

abbrev pub sockets : Bool → Bool → Sockets
sockets ipc rpc = record { ipc_starts = ipc; rpc_starts = rpc }

-- The assertion, which throws, and the bit.
unfoldable pub set_ready : ℕ → Server → Option Server
set_ready bit s =
    if bit_and s.ready bit == 0 then some (record s { ready = bit_or s.ready bit }) else none

unfoldable pub ipc_ready : Server → Option Server
ipc_ready s = set_ready k_ipc s

unfoldable pub rpc_ready : Server → Option Server
rpc_ready s = set_ready k_rpc s

abbrev pub give_up : Server → Server
give_up s = record s { io_error = true; context_stopped = true }

-- An exception of either server is caught, and the context stopped.
unfoldable pub backend_ready : Sockets → Server → Option Server
backend_ready k s =
    if k.ipc_starts
    then chain (ipc_ready (record s { ipc_server = true }))
        (λ t. if k.rpc_starts then rpc_ready (record t { rpc_server = true }) else some (give_up t))
    else some (give_up s)

abbrev start_backend : Sockets → Server → Option Server
start_backend k s = if s.ready == k_backend_ready then backend_ready k s else some s

unfoldable pub meta_ready : Sockets → Server → Option Server
meta_ready k s = chain (set_ready k_meta s) (start_backend k)

unfoldable pub bulk_ready : Sockets → Server → Option Server
bulk_ready k s = chain (set_ready k_bulk s) (start_backend k)

-- `ENSURE_VINEYARDD_READY`
unfoldable pub ensure_ready : Server → Bool
ensure_ready s =
    not (bit_and s.ready k_meta == 0)
    && (not (bit_and s.ready k_ipc == 0) && not (bit_and s.ready k_bulk == 0))

-- A request that `ENSURE_VINEYARDD_READY` guards: it is refused with the status of a server that is not
-- ready, or served.
pub data Guarded {ℓ} (A : Type ℓ) : Type ℓ where
  not_ready : Guarded A
  served : A → Guarded A

unfoldable pub when_ready {ℓ} : {A : Type ℓ} → Server → A → Guarded A
when_ready s a = if ensure_ready s then served a else not_ready

-- `Stop`, which also stops the metadata service.
unfoldable pub stop_server : Server → Server
stop_server s =
    if s.stopped
    then s
    else record s { stopped = true; ipc_server = false; rpc_server = false; context_stopped = true }

-- A component that says that it is up.
pub data Component : Type 0 where
  meta_service bulk_store : Component

unfoldable pub start_all : Sockets → List Component → Server → Option Server
start_all k [] s = some s
start_all k (meta_service ∷ cs) s = chain (meta_ready k s) (start_all k cs)
start_all k (bulk_store ∷ cs) s = chain (bulk_ready k s) (start_all k cs)

-- Whether the guard of the requests passes, after all that was started.
abbrev pub admits : Option Server → Bool
admits none = false
admits (some s) = ensure_ready s

-- Whether requests are served: the context of the handlers runs as well.
abbrev pub serves : Option Server → Bool
serves none = false
serves (some s) = ensure_ready s && not s.context_stopped

-- How often a component says that it is up.
unfoldable pub ups : Component → List Component → ℕ
ups c [] = 0
ups meta_service (meta_service ∷ cs) = suc (ups meta_service cs)
ups meta_service (bulk_store ∷ cs) = ups meta_service cs
ups bulk_store (meta_service ∷ cs) = ups bulk_store cs
ups bulk_store (bulk_store ∷ cs) = suc (ups bulk_store cs)

abbrev pub each_once : List Component → Bool
each_once cs = ups meta_service cs == 1 && ups bulk_store cs == 1

-- Three announcements repeat one, which throws.
thrice :
    (ipc rpc : Bool) (a b c : Component) (cs : List Component)
    → start_all (sockets ipc rpc) (a ∷ b ∷ c ∷ cs) new_server ≡ none
unfolding start_all meta_ready bulk_ready backend_ready ipc_ready rpc_ready set_ready
thrice ipc rpc meta_service meta_service c cs = refl
thrice ipc rpc meta_service bulk_store meta_service cs = ground arith
thrice ipc rpc meta_service bulk_store bulk_store cs = ground arith
thrice ipc rpc bulk_store meta_service meta_service cs = ground arith
thrice ipc rpc bulk_store meta_service bulk_store cs = ground arith
thrice ipc rpc bulk_store bulk_store c cs = refl

not_each_once : (a b c : Component) (cs : List Component) → each_once (a ∷ b ∷ c ∷ cs) ≡ false
unfolding ups
not_each_once meta_service meta_service meta_service cs = ground arith
not_each_once meta_service meta_service bulk_store cs = ground arith
not_each_once meta_service bulk_store meta_service cs = ground arith
not_each_once meta_service bulk_store bulk_store cs = ground arith
not_each_once bulk_store meta_service meta_service cs = ground arith
not_each_once bulk_store meta_service bulk_store cs = ground arith
not_each_once bulk_store bulk_store meta_service cs = ground arith
not_each_once bulk_store bulk_store bulk_store cs = ground arith

-- Whatever the metadata service and the blob store announce, in whatever order: the guard of the requests
-- passes just if each of them has said once that it is up and the socket for the clients on the host
-- can be opened; and requests are served just if the other socket can be opened as well, since the
-- context is stopped otherwise.
pub startup_lem :
    (ipc rpc : Bool) (cs : List Component)
    → (admits (start_all (sockets ipc rpc) cs new_server) ≡ (ipc && each_once cs))
      × (serves (start_all (sockets ipc rpc) cs new_server) ≡ (ipc && rpc && each_once cs))
unfolding start_all meta_ready bulk_ready backend_ready ipc_ready rpc_ready set_ready ensure_ready
    ups
startup_lem ipc rpc [] = ground arith
startup_lem ipc rpc (meta_service ∷ []) = ground arith
startup_lem ipc rpc (bulk_store ∷ []) = ground arith
startup_lem ipc rpc (meta_service ∷ meta_service ∷ []) = ground arith
startup_lem ipc rpc (meta_service ∷ bulk_store ∷ []) = ground arith
startup_lem ipc rpc (bulk_store ∷ meta_service ∷ []) = ground arith
startup_lem ipc rpc (bulk_store ∷ bulk_store ∷ []) = ground arith
startup_lem ipc rpc (a ∷ b ∷ c ∷ cs) =
    ground (arith, thrice ipc rpc a b c cs, not_each_once a b c cs)
