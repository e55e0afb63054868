-- ===== src/Transport/ReadConnections/Pool.antt =====
-- packages/transport/src/read-connections.ts, createReadConnections: the entries by key, with the
-- connections and the opens under way. An entry and a connection are places in their tables, so a
-- call that keeps an entry across another call keeps its place, also when the map has dropped it.
pub mod Shutting
pub mod Totals
pub mod Generations
use open_mcc_manager.Prelude.{
  ℕ, ◌+◌, ◌-◌, Bool, true, false, not, ◌&&◌, ◌||◌, Option, none, some, String, List, [], ◌∷◌, ◌++◌,
  ◌==◌, ltb, leb, if◌then◌else◌, str_eq, length, get_elem?, update_at, count_if,
}
use open_mcc_manager.Transport.Limiter.{create_channel_limiter}
use open_mcc_manager.Transport.ReadConnections.{
  ConnectionIdentity, same_connection_identity, Op, OpState, in_queue, Lease, ConnectionState, How,
  end, destroy, Connection, is_ready, close_down, expire, give_up_lease, add_lease, retire,
  lease_ops,
}

pub record ReadConnectionsOptions : Type 0 where
  pub idle_ms : ℕ
  pub hard_age_ms : ℕ
  pub channel_limit : ℕ

pub record Pending : Type 0 where
  pub id : ℕ
  pub identity : ConnectionIdentity
  pub generation : ℕ

pub record Entry : Type 0 where
  pub generation : ℕ
  pub installed : Option ℕ
  pub pending : Option Pending
  pub connections : List ℕ

pub record Pool : Type 0 where
  pub entries : List (String × ℕ)
  pub table : List Entry
  pub conns : List Connection
  pub generations : ℕ
  pub opens : ℕ
  pub lease_count : ℕ

abbrev pub has_generation : ℕ → Option Entry → Bool
has_generation generation none = false
has_generation generation (some entry) = entry.generation == generation

-- `entries.get(key)` and `entries.delete(key)`
unfoldable pub find_entry : String → List (String × ℕ) → Option ℕ
find_entry key [] = none
find_entry key ((k, e) ∷ es) = if str_eq k key then some e else find_entry key es

unfoldable pub delete_entry : String → List (String × ℕ) → List (String × ℕ)
delete_entry key [] = []
delete_entry key ((k, e) ∷ es) =
    if str_eq k key then delete_entry key es else (k, e) ∷ delete_entry key es

abbrev pub is_at : ℕ → Option ℕ → Bool
is_at i none = false
is_at i (some j) = j == i

entry_found : Option ℕ → String → Pool → ℕ × Pool
entry_found (some e) key p = (e, p)
entry_found none key p = (
  length p.table,
  record p {
    generations = p.generations + 1;
    entries = p.entries ++ (key, length p.table) ∷ [];
    table =
        p.table
        ++ record {
          generation = p.generations + 1;
          installed = none;
          pending = none;
          connections = [];
        }
          ∷ [];
  },
)

unfoldable pub entry_for : String → Pool → ℕ × Pool
unfolding entry_found
entry_for key p = entry_found (find_entry key p.entries) key p

-- An entry with no connection and no open under way.
abbrev pub is_unused : Entry → Bool
is_unused entry =
    (length entry.connections == 0) && elim entry.pending [ none ↦ true | some _ ↦ false ]

prune_entry : String → ℕ → Option Entry → Pool → Pool
prune_entry key e none p = p
prune_entry key e (some entry) p =
    if is_unused entry && is_at e (find_entry key p.entries)
    then record p { entries = delete_entry key p.entries }
    else p

unfoldable pub prune : String → ℕ → Pool → Pool
unfolding prune_entry
prune key e p = prune_entry key e (get_elem? p.table e) p

abbrev pub uninstalled : ℕ → Entry → Entry
uninstalled i entry = record entry {
  installed = if is_at i entry.installed then none else entry.installed;
}

-- `entry.connections.delete(connection)`
unfoldable pub drop_connection : ℕ → List ℕ → List ℕ
drop_connection i [] = []
drop_connection i (j ∷ js) = if j == i then drop_connection i js else j ∷ drop_connection i js

abbrev pub forgotten : ℕ → Entry → Entry
forgotten i entry = record (uninstalled i entry) {
  connections = drop_connection i entry.connections;
}

shut_connection : How → ℕ → Option Connection → Pool → Pool
shut_connection how i none p = p
shut_connection how i (some c) p =
    if c.closed
    then p
    else prune c.key c.entry (record p {
      conns = update_at i (close_down how) p.conns;
      table = update_at c.entry (forgotten i) p.table;
    })

unfoldable pub shut_down : How → ℕ → Pool → Pool
unfolding shut_connection
shut_down how i p = shut_connection how i (get_elem? p.conns i) p

unfoldable pub live_leases : Connection → ℕ
live_leases c = count_if (λ l. not l.released) c.leases

installed_at : ℕ → Option Entry → Bool
installed_at i none = false
installed_at i (some entry) = is_at i entry.installed

idle_after : ℕ → Option Connection → Pool → Pool
idle_after i none p = p
idle_after i (some c) p =
    if c.closed || ltb 0 (live_leases c)
    then p
    else if c.retired
    then shut_down destroy i p
    else if installed_at i (get_elem? p.table c.entry)
    then record p { conns = update_at i (λ c. record c { idle_timer = true }) p.conns }
    else shut_down end i p

unfoldable pub after_last_lease : ℕ → Pool → Pool
unfolding idle_after installed_at
after_last_lease i p = idle_after i (get_elem? p.conns i) p

-- The deadline of a lease: where an operation was on the host, its connection is retired.
is_sent : ℕ → Op → Bool
is_sent lease o = o.listed && o.lease == lease && elim o.state [ in_queue ↦ false | _ ↦ true ]

expire_at : ℕ → ℕ → Option Connection → Pool → Pool
expire_at i lease none p = p
expire_at i lease (some c) p = record p {
  conns = update_at i (expire lease) p.conns;
  table =
      if ltb 0 (count_if (is_sent lease) c.ops)
      then update_at c.entry (uninstalled i) p.table
      else p.table;
}

unfoldable pub expire_lease : ℕ → ℕ → Pool → Pool
unfolding expire_at is_sent
expire_lease i lease p = expire_at i lease (get_elem? p.conns i) p

-- The connection that the new one replaces: another identity is cut off, else it serves its leases.
replace : Option ℕ → ConnectionIdentity → Pool → Pool
replace none identity p = p
replace (some i) identity p = elim (get_elem? p.conns i) [
  | none ↦ p
  | some c ↦
      if same_connection_identity c.identity identity
      then after_last_lease i p
      else shut_down destroy i p
]

install_in : String → ℕ → Option Entry → ConnectionIdentity → ConnectionState → ℕ → Pool → ℕ × Pool
install_in key e none identity transport now p = (length p.conns, p)
install_in key e (some entry) identity transport now p = (
  length p.conns,
  replace entry.installed identity (record p {
    conns =
        p.conns
        ++ record {
          key = key;
          entry = e;
          transport = transport;
          ended_by = [];
          identity = identity;
          ready_at = now;
          limiter = create_channel_limiter;
          admitted = [];
          leases = [];
          ops = [];
          retired = false;
          closed = false;
          idle_timer = false;
          hard_timer = true;
        }
          ∷ [];
    table =
        update_at e
          (λ entry. record entry {
            installed = some (length p.conns);
            connections = entry.connections ++ length p.conns ∷ [];
          })
          p.table;
  }),
)

unfoldable pub install : String → ℕ → ConnectionIdentity → ConnectionState → ℕ → Pool → ℕ × Pool
unfolding install_in replace
install key e identity transport now p =
    install_in key e (get_elem? p.table e) identity transport now p
