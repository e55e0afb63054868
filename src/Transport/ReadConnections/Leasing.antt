-- ===== src/Transport/ReadConnections/Leasing.antt =====
-- packages/transport/src/read-connections.ts, createReadConnections: opening a connection, leasing
-- one, giving it back, and evicting a host. What runs between two awaits is one call here.
pub mod Orphans
pub mod Deadlines
pub mod Counting
pub mod Active
pub mod Generations
pub mod Evictions
use open_mcc_manager.Prelude.{
  ℕ, ◌+◌, ◌-◌, Bool, true, false, not, ◌&&◌, ◌||◌, Option, none, some, String, List, [], ◌∷◌, ◌++◌,
  ◌==◌, ltb, leb, if◌then◌else◌, str_eq, length, get_elem?, update_at, count_if,
}
use open_mcc_manager.Transport.ReadConnections.{
  ConnectionIdentity, same_connection_identity, Lease, ConnectionState, How, end, destroy,
  Connection, is_ready, give_up_lease, add_lease,
}
use open_mcc_manager.Transport.ReadConnections.Pool.{
  ReadConnectionsOptions, Pending, Entry, Pool, find_entry, entry_for, prune, shut_down,
  after_last_lease, install, has_generation,
}

-- The open under way at an entry; it is not there for an entry that is not.
abbrev pub pending_at : Option Entry → Option Pending
pending_at none = none
pending_at (some entry) = entry.pending

abbrev pub is_pending : ℕ → Option Pending → Bool
is_pending id none = false
is_pending id (some q) = q.id == id

start_at : ConnectionIdentity → ℕ → Option Entry → Pool → ℕ × Pool
start_at identity e none p = (p.opens + 1, record p { opens = p.opens + 1 })
start_at identity e (some entry) p = (
  p.opens + 1,
  record p {
    opens = p.opens + 1;
    table =
        update_at e
          (λ entry. record entry {
            pending =
                some
                  (record { id = p.opens + 1; identity = identity; generation = entry.generation });
          })
          p.table;
  },
)

-- What `startOpen` does before its first await; the number of the open.
unfoldable pub start_open : ConnectionIdentity → ℕ → Pool → ℕ × Pool
unfolding start_at
start_open identity e p = start_at identity e (get_elem? p.table e) p

-- An open that fails, or that is no longer wanted.
unfoldable pub give_up_open : String → ℕ → ℕ → Pool → Pool
give_up_open key e id p =
    if is_pending id (pending_at (get_elem? p.table e))
    then prune key e
        (record p { table = update_at e (λ entry. record entry { pending = none }) p.table })
    else p

install_current :
    Bool → String → ℕ → ℕ → ConnectionIdentity → ConnectionState → ℕ → Pool → Option ℕ × Pool
install_current false key e id identity transport now p = (none, give_up_open key e id p)
install_current true key e id identity transport now p =
    let (i, p') =
      install key e identity transport now
        (record p { table = update_at e (λ entry. record entry { pending = none }) p.table }) in
    (some i, p')

-- The end of `open`: the connection, or none where the open failed or was overtaken.
unfoldable pub finish_open :
    String → ℕ → Pending → Bool → ConnectionState → ℕ → Pool → Option ℕ × Pool
unfolding install_current
finish_open key e q opened transport now p =
    install_current
      (opened
        && is_pending q.id (pending_at (get_elem? p.table e))
        && has_generation q.generation (get_elem? p.table e)
        && is_ready transport)
      key e q.id q.identity transport now p

unfoldable pub usable : Connection → ConnectionIdentity → Bool
usable c identity =
    not c.closed
    && not c.retired
    && is_ready c.transport
    && same_connection_identity c.identity identity

-- The place of the lease is the last of the connection's table.
unfoldable pub checkout : ℕ → Pool → Pool
checkout i p = record p { conns = update_at i add_lease p.conns; lease_count = p.lease_count + 1 }

-- What a turn of the loop of `lease` comes to: a lease on a connection, or an open to wait for.
pub data Turn : Type 0 where
  out_of_range : Turn
  leased : ℕ → Turn
  joins : ℕ → ℕ → Turn
  starts : ℕ → ℕ → Turn

abbrev pub is_joinable : ConnectionIdentity → Option Entry → Option Pending → Bool
is_joinable identity (some entry) (some q) =
    q.generation == entry.generation && same_connection_identity q.identity identity
is_joinable identity _ _ = false

abbrev pub pending_id : Option Pending → ℕ
pending_id none = 0
pending_id (some q) = q.id

-- The connection has to be opened, or one that is being opened is joined.
await_open : ConnectionIdentity → ℕ → Pool → Turn × Pool
await_open identity e p =
    let entry = get_elem? p.table e in
    if is_joinable identity entry (pending_at entry)
    then (joins e (pending_id (pending_at entry)), p)
    else let (id, p') = start_open identity e p in (starts e id, p')

with_connection :
    ReadConnectionsOptions
    → ConnectionIdentity
    → ℕ
    → ℕ
    → ℕ
    → ℕ
    → Option Connection
    → Pool
    → Turn × Pool
with_connection options identity deadline now e i none p = await_open identity e p
with_connection options identity deadline now e i (some c) p =
    if not (usable c identity)
    then await_open identity e (shut_down destroy i p)
    else if leb (now + deadline) (c.ready_at + options.hard_age_ms)
    then (leased i, checkout i p)
    else await_open identity e p

abbrev pub installed_in : Option Entry → Option ℕ
installed_in none = none
installed_in (some entry) = entry.installed

with_installed :
    ReadConnectionsOptions → ConnectionIdentity → ℕ → ℕ → ℕ → Option ℕ → Pool → Turn × Pool
with_installed options identity deadline now e none p = await_open identity e p
with_installed options identity deadline now e (some i) p =
    with_connection options identity deadline now e i (get_elem? p.conns i) p

unfoldable pub lease_turn :
    ReadConnectionsOptions → String → ConnectionIdentity → ℕ → ℕ → Pool → Turn × Pool
unfolding with_installed with_connection await_open
lease_turn options key identity deadline now p =
    let (e, p') = entry_for key p in
    with_installed options identity deadline now e (installed_in (get_elem? p'.table e)) p'

unfoldable pub lease :
    ReadConnectionsOptions → String → ConnectionIdentity → ℕ → ℕ → Pool → Turn × Pool
lease options key identity deadline now p =
    if ltb 0 deadline && ltb deadline options.hard_age_ms
    then lease_turn options key identity deadline now p
    else (out_of_range, p)

-- After the await: the connection is leased if it is still usable, or the loop goes on.
resume_with :
    ReadConnectionsOptions
    → String
    → ConnectionIdentity
    → ℕ
    → ℕ
    → ℕ
    → Option Connection
    → Pool
    → Turn × Pool
resume_with options key identity deadline now i none p =
    lease_turn options key identity deadline now p
resume_with options key identity deadline now i (some c) p =
    if usable c identity
    then (leased i, checkout i p)
    else lease_turn options key identity deadline now p

unfoldable pub resume :
    ReadConnectionsOptions → String → ConnectionIdentity → ℕ → ℕ → ℕ → Pool → Turn × Pool
unfolding resume_with
resume options key identity deadline now i p =
    resume_with options key identity deadline now i (get_elem? p.conns i) p

release_from : ℕ → ℕ → Option Connection → Pool → Pool
release_from i id none p = p
release_from i id (some c) p = elim (get_elem? c.leases id) [
  | none ↦ p
  | some l ↦
      if l.released
      then p
      else after_last_lease i (record p {
        conns = update_at i (give_up_lease id) p.conns;
        lease_count = p.lease_count - 1;
      })
]

unfoldable pub release_reader : ℕ → ℕ → Pool → Pool
unfolding release_from
release_reader i id p = release_from i id (get_elem? p.conns i) p

unfoldable pub shut_each : List ℕ → Pool → Pool
shut_each [] p = p
shut_each (i ∷ is) p = shut_each is (shut_down destroy i p)

evict_entry : String → ℕ → Option Entry → Pool → Pool
evict_entry key e none p = p
evict_entry key e (some entry) p = prune key e (
    shut_each entry.connections (record p {
      generations = p.generations + 1;
      table = update_at e (λ entry. record entry { generation = p.generations + 1 }) p.table;
    }))

evict_found : String → Option ℕ → Pool → Pool
evict_found key none p = p
evict_found key (some e) p = evict_entry key e (get_elem? p.table e) p

unfoldable pub evict : String → Pool → Pool
unfolding evict_found evict_entry
evict key p = evict_found key (find_entry key p.entries) p
