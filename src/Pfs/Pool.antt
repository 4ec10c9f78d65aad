-- ===== src/Pfs/Pool.antt =====
-- grage-pfs/app/src/core/pfs-connection-pool.c: the connections to the disk or to PRAID that the
-- threads of the file system share. A thread holds a pointer to its connection, so they live on a
-- heap. What is under the mutex is one step. `socket` is what the handshake of a new connection
-- returns. The maximum is an `int` that is not negative, and `size` never goes above it.
pub mod Laws
pub mod Bounded
use grage.Prelude.{
  ℕ, ◌+◌, Bool, true, false, not, Option, none, some, List, [], ◌∷◌, ◌==◌, if◌then◌else◌, ltb, ◌&&◌,
}
use grage.Commons.LinkedList.{LinkedList, build_list, add_node, order_always_first}

-- PooledConnection
pub record PooledConnection : Type 0 where
  pub active : Bool
  pub listen_socket : ℕ

-- The globals, where a `pooledConnections` of `none` is NULL, and the allocated memory.
pub record State : Type 0 where
  pub heap : ℕ → PooledConnection
  pub next_pointer : ℕ
  pub pooled_connections : Option (LinkedList ℕ)
  pub pooled_connections_max_count : ℕ

-- What a call does: it ends the process, uses a NULL list, or returns a connection or NULL.
pub data Outcome : Type 0 where
  exits : Outcome
  crashes : Outcome
  returns : Option ℕ → State → Outcome

-- A write through a pointer.
abbrev pub update : (ℕ → PooledConnection) → ℕ → PooledConnection → ℕ → PooledConnection
update heap p v q = if q == p then v else heap q

-- pfs_pool_isActiveConnection
abbrev pub is_active_connection : State → ℕ → Bool
is_active_connection s p = (s.heap p).active

-- pfs_pool_setActiveConnection
abbrev pub set_active_connection : State → ℕ → State
set_active_connection s p = record s {
  heap = update s.heap p (record (s.heap p) { active = true });
}

-- pfs_pool_setInactiveConnection
abbrev pub set_inactive_connection : State → ℕ → State
set_inactive_connection s p = record s {
  heap = update s.heap p (record (s.heap p) { active = false });
}

-- pfs_pool_initialize, with the configured number of connections.
abbrev pub initialize : State → ℕ → State
initialize s max_connections = record s {
  pooled_connections_max_count = max_connections;
  pooled_connections = some build_list;
}

-- pfs_pool_addPooledConnection, to a list that is not NULL.
abbrev pub add_pooled_connection : State → LinkedList ℕ → ℕ → State
add_pooled_connection s l p = record s {
  pooled_connections = some (add_node order_always_first l p);
}

-- The part of pfs_pool_buildAndAddPooledConnection that allocates and adds the connection; the
-- last argument is the list.
abbrev pub add_built : ℕ → State → Option (LinkedList ℕ) → Outcome
add_built socket s none = crashes
add_built socket s (some l) = returns (some s.next_pointer) (
    add_pooled_connection
      (record s {
        heap = update s.heap s.next_pointer (record { active = true; listen_socket = socket });
        next_pointer = s.next_pointer + 1;
      })
      l s.next_pointer)

-- pfs_pool_buildAndAddPooledConnection
unfoldable pub build_and_add_pooled_connection : ℕ → State → Outcome
build_and_add_pooled_connection socket s =
    if socket == 0 then exits else add_built socket s s.pooled_connections

-- The loop of pfs_pool_getPooledConnection: the first connection that is not active.
unfoldable pub first_inactive : State → List ℕ → Option ℕ
first_inactive s [] = none
first_inactive s (p ∷ ps) = if not (is_active_connection s p) then some p else first_inactive s ps

-- pfs_pool_getPooledConnection, with a list that is not NULL.
unfoldable pub get_from_list : ℕ → State → LinkedList ℕ → Outcome
get_from_list socket s l =
    if l.size == 0
    then build_and_add_pooled_connection socket s
    else elim (first_inactive s l.elements) [
      | some p ↦ returns (some p) (set_active_connection s p)
      | none ↦
          if ltb l.size s.pooled_connections_max_count
          then build_and_add_pooled_connection socket s
          else returns none s
    ]

-- pfs_pool_getPooledConnection
unfoldable pub get_pooled_connection : ℕ → State → Outcome
get_pooled_connection socket s = elim s.pooled_connections [
  | none ↦ build_and_add_pooled_connection socket s
  | some l ↦ get_from_list socket s l
]

-- pfs_pool_releaseConnection
abbrev pub release_connection : State → ℕ → State
release_connection s p = set_inactive_connection s p

-- pfs_pool_isPooledConnectionsEnabled, with the configured number of connections.
abbrev pub is_pooled_connections_enabled : ℕ → Bool
is_pooled_connections_enabled max_connections = ltb 0 max_connections

-- The start of pfs_pool_getConection, before its loop, with the list that it finds; `none` ends the
-- process.
abbrev pub prepare : ℕ → State → Option (LinkedList ℕ) → Option State
prepare max_connections s none =
    if is_pooled_connections_enabled max_connections
    then some (initialize s max_connections)
    else none
prepare max_connections s (some l) = if max_connections == 0 then none else some s

-- A turn of the loop of pfs_pool_getConection: it goes on after `returns none`.
unfoldable pub get_conection_turn : ℕ → ℕ → State → Outcome
get_conection_turn max_connections socket s =
    elim (prepare max_connections s s.pooled_connections) [
      | none ↦ exits
      | some s' ↦ get_pooled_connection socket s'
    ]
