-- ===== src/Client/Io/Connecting.antt =====
-- src/client/io.cc: connecting to a server, with what the system answers as an argument.
use libvineyard.Base.{
  ℕ, zero, suc, ◌≡◌, refl, Bool, false, ◌&&◌, Option, none, some, List, [], ◌∷◌, if◌then◌else◌,
  is_set, arith, ◌||◌, All, ◌++◌,
}
use libvineyard.Common.Status.{Status, ok, io_error, connection_failed, is_ok}

-- What the system answers in `connect_ipc_socket`: whether the path can be written, a descriptor if
-- `socket` gives one, whether the path fits, and whether `connect` succeeds.
pub record IpcAnswers : Type 0 where
  pub accessible : Bool
  pub socket : Option ℕ
  pub path_fits : Bool
  pub connects : Bool

-- The status and the out-parameter, which is negative where there is no descriptor.
unfoldable pub connect_ipc_socket : IpcAnswers → Status × Option ℕ
connect_ipc_socket a =
    if a.accessible
    then if is_set a.socket
      then if a.path_fits
        then if a.connects then (ok, a.socket) else (io_error, a.socket)
        else (io_error, a.socket)
      else (io_error, none)
    else (io_error, none)

-- An address of `getaddrinfo`: a descriptor, if `socket` gives one, and whether `connect` succeeds.
pub record Address : Type 0 where
  pub socket : Option ℕ
  pub connects : Bool

-- The loop over the addresses, with `socket_fd`.
unfoldable pub try_addresses : Option ℕ → List Address → Option ℕ
try_addresses socket_fd [] = socket_fd
try_addresses socket_fd (addr ∷ addrs) =
    let later = try_addresses addr.socket addrs in
    if is_set addr.socket && addr.connects then addr.socket else later

-- `connect_rpc_socket`: none for the addresses is an error of `getaddrinfo`.
unfoldable pub connect_rpc_socket : Option (List Address) → Status × Option ℕ
connect_rpc_socket none = (io_error, none)
connect_rpc_socket (some addrs) =
    let socket_fd = try_addresses none addrs in
    if is_set socket_fd then (ok, socket_fd) else (io_error, none)

-- The loop of `connect_ipc_socket_retry` and `connect_rpc_socket_retry`, from the last attempt's
-- status, with the retries that are left and what the next attempts answer.
unfoldable pub retry : ℕ → Status → (ℕ → Status) → Status
retry zero status attempt = status
retry (suc num_retries) status attempt =
    let later = retry num_retries (attempt num_retries) attempt in
    if is_ok status then status else later

-- The first attempt counts as that with all ten retries left.
unfoldable pub connect_socket_retry : (ℕ → Status) → Status
connect_socket_retry attempt =
    if is_ok (retry 10 (attempt 10) attempt) then ok else connection_failed

-- One of the attempts with at most as many retries left succeeds.
unfoldable pub any_ok : ℕ → (ℕ → Status) → Bool
any_ok zero attempt = is_ok (attempt 0)
any_ok (suc n) attempt = let rest = any_ok n attempt in is_ok (attempt (suc n)) || rest

retry-any_ok :
    (n : ℕ) (attempt : ℕ → Status) → is_ok (retry n (attempt n) attempt) ≡ any_ok n attempt
unfolding retry any_ok
retry-any_ok zero attempt = refl
retry-any_ok (suc n) attempt = ground (arith, retry-any_ok n attempt)

-- Connecting succeeds just where one of eleven attempts does, and otherwise the connection has failed.
pub connect_socket_retry_lem :
    (attempt : ℕ → Status)
    → connect_socket_retry attempt ≡ (if any_ok 10 attempt then ok else connection_failed)
unfolding connect_socket_retry
connect_socket_retry_lem attempt = rw (retry-any_ok 10 attempt)

NoneConnects : List Address → Type 0
NoneConnects addrs = All (λ addr. addr.connects ≡ false) addrs

try_addresses-last :
    (socket_fd : Option ℕ) (addrs : List Address) (last : Address)
    → NoneConnects (addrs ++ last ∷ [])
    → try_addresses socket_fd (addrs ++ last ∷ []) ≡ last.socket
unfolding try_addresses NoneConnects
try_addresses-last socket_fd [] last h = ground arith
try_addresses-last socket_fd (addr ∷ addrs) last h =
    ground (arith, try_addresses-last addr.socket addrs last h.1)

-- Where no address can be connected to, `connect_rpc_socket` still returns ok if there is a descriptor
-- for the last one.
pub connect_rpc_socket-unconnected :
    (addrs : List Address) (last : Address)
    → All (λ addr. addr.connects ≡ false) (addrs ++ last ∷ [])
    → connect_rpc_socket (some (addrs ++ last ∷ []))
      ≡ (if is_set last.socket then (ok, last.socket) else (io_error, none))
unfolding connect_rpc_socket NoneConnects
connect_rpc_socket-unconnected addrs last h = rw (try_addresses-last none addrs last h)
