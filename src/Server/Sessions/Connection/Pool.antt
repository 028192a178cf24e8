-- ===== src/Server/Sessions/Connection/Pool.antt =====
-- src/server/async/socket_server.cc, ipc_server.cc and rpc_server.cc: the pool of a server's
-- connections, under its lock. The ids do not reach the limit of an int.
use libvineyard.Base.{
  ℕ, ◌+◌, ◌≡◌, refl, ◌∙◌, Bool, true, false, not, ◌&&◌, ◌||◌, none, some, List, [], ◌∷◌, ◌++◌,
  length, if◌then◌else◌, ◌==◌, arith,
}
use libvineyard.Base.Table.{
  Table, lookup, contains, emplace, erase, update, lookup-erase, lookup-cons,
}
use libvineyard.Server.Sessions.Connection.{Connection, new_connection, start, stop}

-- `SocketServer`, with whether `connections_mutx_` is held.
pub record SocketServer (M : Type 0) : Type 0 where
  pub next_conn_id : ℕ
  pub connections : Table (Connection M)
  pub held : Bool

-- A call that takes the lock: what it answers, or it waits for ever for a lock that its own thread
-- holds, or it throws.
pub data Call {ℓ} (A : Type ℓ) : Type ℓ where
  returns : A → Call A
  blocks : Call A
  throws : Call A

module _ {M : Type 0} where
  -- `std::lock_guard`: the lock is released when the call returns or throws.
  abbrev pub released {ℓ} : {A : Type ℓ} → Call (SocketServer M × A) → Call (SocketServer M × A)
  released (returns (s, a)) = returns (record s { held = false }, a)
  released blocks = blocks
  released throws = throws

  abbrev pub locked {ℓ} :
      {A : Type ℓ}
      → (SocketServer M → Call (SocketServer M × A))
      → SocketServer M
      → Call (SocketServer M × A)
  locked f s = if s.held then blocks else released (f (record s { held = true }))

  -- The handler of `doAccept`, where there is no error.
  unfoldable pub accept : SocketServer M → Call (SocketServer M × Unit {0})
  accept = locked (λ s. returns (
    record s {
      connections = emplace s.next_conn_id (start new_connection) s.connections;
      next_conn_id = s.next_conn_id + 1;
    },
    tt,
  ))

  unfoldable pub remove_connection : ℕ → SocketServer M → Call (SocketServer M × Unit {0})
  remove_connection conn_id =
      locked (λ s. returns (record s { connections = erase conn_id s.connections }, tt))

  unfoldable pub exists_connection : ℕ → SocketServer M → Call (SocketServer M × Bool)
  exists_connection conn_id = locked (λ s. returns (s, contains conn_id s.connections))

  unfoldable pub alive_connections : SocketServer M → Call (SocketServer M × ℕ)
  alive_connections = locked (λ s. returns (s, length s.connections))

  -- The streams that all connections drop.
  unfoldable pub stop_all : Table (Connection M) → List ℕ
  stop_all [] = []
  stop_all ((conn_id, c) ∷ rest) = (stop c).1 ++ stop_all rest

  -- `SocketServer::Stop`, with the streams that are dropped.
  unfoldable pub stop_server : SocketServer M → Call (SocketServer M × List ℕ)
  stop_server = locked (λ s. returns (record s { connections = [] }, stop_all s.connections))

  -- `CloseConnection` stops the connection, and calls `RemoveConnection` with the lock held.
  unfoldable pub close_connection : ℕ → SocketServer M → Call (SocketServer M × Unit {0})
  close_connection conn_id = locked (λ s. elim (lookup conn_id s.connections) [
    | none ↦ throws
    | some c ↦
        remove_connection conn_id
          (record s { connections = update conn_id (stop c).0 s.connections })
  ])

abbrev pub new_server : {M : Type 0} → SocketServer M
new_server = record { next_conn_id = 0; connections = []; held = false }

-- What happens to the pool.
pub data Event : Type 0 where
  accepts : Event
  removes : ℕ → Event
  stops : Event

module _ {M : Type 0} where
  abbrev pub after {ℓ} : {A : Type ℓ} → SocketServer M → Call (SocketServer M × A) → SocketServer M
  after s (returns (t, a)) = t
  after s blocks = s
  after s throws = s

  pub happen : Event → SocketServer M → SocketServer M
  happen accepts s = after s (accept s)
  happen (removes conn_id) s = after s (remove_connection conn_id s)
  happen stops s = after s (stop_server s)

  pub run : List Event → SocketServer M → SocketServer M
  run [] s = s
  run (e ∷ es) s = run es (happen e s)

-- Whether a connection is there after the events: it is accepted with the next id, and stays until it
-- is removed or the server stops.
abbrev pub stays : ℕ → List Event → ℕ → Bool → Bool
stays i [] next now = now
stays i (accepts ∷ es) next now = stays i es (next + 1) (now || i == next)
stays i (removes j ∷ es) next now = stays i es next (now && not (j == i))
stays i (stops ∷ es) next now = stays i es next false

module _ {M : Type 0} where
  contains-emplace :
      (i k : ℕ) (c : Connection M) (m : Table (Connection M))
      → contains i (emplace k c m) ≡ (contains i m || i == k)
  contains-emplace i k c m = ground (arith, lookup-cons i k c m)

  contains-erase :
      (i j : ℕ) (m : Table (Connection M)) → contains i (erase j m) ≡ (contains i m && not (j == i))
  contains-erase i j m = ground (arith, lookup-erase i j m)

  happen-held : (e : Event) (s : SocketServer M) → s.held ≡ false → (happen e s).held ≡ false
  unfolding happen accept remove_connection stop_server
  happen-held accepts s free = rw free refl
  happen-held (removes j) s free = rw free refl
  happen-held stops s free = rw free refl

  happen-next :
      (e : Event) (s : SocketServer M)
      → s.held ≡ false
      → (happen e s).next_conn_id ≡ elim e [
        | accepts ↦ s.next_conn_id + 1
        | removes j ↦ s.next_conn_id
        | stops ↦ s.next_conn_id
      ]
  unfolding happen accept remove_connection stop_server
  happen-next accepts s free = rw free refl
  happen-next (removes j) s free = rw free refl
  happen-next stops s free = rw free refl

  happen-contains :
      (i : ℕ) (e : Event) (s : SocketServer M)
      → s.held ≡ false
      → contains i (happen e s).connections
        ≡ stays i (e ∷ []) s.next_conn_id (contains i s.connections)
  unfolding happen accept remove_connection stop_server lookup
  happen-contains i accepts s free =
      rw free (contains-emplace i s.next_conn_id (start new_connection) s.connections)
  happen-contains i (removes j) s free = rw free (contains-erase i j s.connections)
  happen-contains i stops s free = rw free refl

  settle {ℓ} :
      {A : Type ℓ} (s : SocketServer M) (a : A) (held : Bool)
      → held ≡ false
      → if◌then◌else◌ {A = Call (SocketServer M × A)} held blocks
          (returns (record s { held = false }, a))
        ≡ returns (record s { held = held }, a)
  settle s a true e = absurd (ground arith)
  settle s a false e = refl

  -- After any accepts, removals and stops the pool has just the connections that have been accepted
  -- since the last stop and not been removed, under ids in the order of their acceptance.
  pub run-stays :
      (i : ℕ) (es : List Event) (s : SocketServer M)
      → s.held ≡ false
      → exists_connection i (run es s)
        ≡ returns (run es s, stays i es s.next_conn_id (contains i s.connections))
  unfolding run exists_connection
  run-stays i [] s free = settle s _ s.held free
  run-stays i (accepts ∷ es) s free =
      run-stays i es (happen accepts s) (happen-held accepts s free)
      ∙ rw (happen-next accepts s free, happen-contains i accepts s free)
  run-stays i (removes j ∷ es) s free =
      run-stays i es (happen (removes j) s) (happen-held (removes j) s free)
      ∙ rw (happen-next (removes j) s free, happen-contains i (removes j) s free)
  run-stays i (stops ∷ es) s free =
      run-stays i es (happen stops s) (happen-held stops s free)
      ∙ rw (happen-next stops s free, happen-contains i stops s free)

  -- `CloseConnection` of a connection in the pool waits for ever for the lock that it holds.
  pub close_connection-blocks :
      (conn_id : ℕ) (s : SocketServer M)
      → contains conn_id s.connections ≡ true
      → close_connection conn_id s ≡ blocks
  unfolding close_connection remove_connection
  close_connection-blocks conn_id s h = ground arith
