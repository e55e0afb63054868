-- ===== src/Transport/ReadConnections/Tests.antt =====
-- A host read through one shared connection (packages/transport/src/read-connections.ts).
use open_mcc_manager.Prelude.{
  ℕ, ◌≤◌, ◌<◌, ◌≡◌, refl, true, false, none, some, [], ◌∷◌, Bool, length, get_elem?, update_at,
  times_in,
}
use open_mcc_manager.Transport.Limiter.{create_channel_limiter, acquire, release, abandon}
use open_mcc_manager.Transport.ReadConnections.{
  ConnectionIdentity, same_connection_identity, ConnectionState, ready, disconnected, destroy,
  Connection, Lease, Op, read, add_lease, run_admitted, close_down, abandon_each, places,
  release_slot,
}
use open_mcc_manager.Transport.ReadConnections
use open_mcc_manager.Transport.ReadConnections.Slots.{IsSound, answered}
use open_mcc_manager.Transport.ReadConnections.Slots.Reach.{
  Lives, installed, later, reads, admits, is_leased, shuts, Lives-IsSound,
}
use open_mcc_manager.Transport.ReadConnections.Slots.Closing.{closed_settles}
use open_mcc_manager.Transport.ReadConnections.Pool.{
  ReadConnectionsOptions, Pending, Entry, Pool, find_entry, entry_for, install,
}
use open_mcc_manager.Transport.ReadConnections.Leasing.{
  Turn, leased, starts, lease, lease_turn, resume, finish_open, start_open, usable, checkout, evict,
  pending_at,
}
use open_mcc_manager.Transport.ReadConnections.Leasing.Orphans.{IsAlone, replacement_escapes_evict}
use open_mcc_manager.Transport.ReadConnections.Leasing.Generations.{Follows}
use open_mcc_manager.Transport.ReadConnections.Leasing.Evictions.{evict-shuts}
use open_mcc_manager.Transport.ReadConnections.Leasing.Deadlines.{IsGranted, lease-IsGranted}
use open_mcc_manager.Transport.ReadConnections.Leasing.Counting.{IsCounted}
use open_mcc_manager.Transport.ReadConnections.Leasing.Active.{
  Runs, created, goes_on, leases, resumes, opens, no_connections, Runs-IsCounted,
}

abbrev host : ConnectionIdentity
host = record {
  hostname = "bots.example";
  port = 22;
  username = "mcc";
  ssh_key_id = "key-1";
  host_key_fingerprint = "SHA256:abc";
}

abbrev fresh : Connection
fresh = record {
  key = "host-1";
  entry = 0;
  transport = ready;
  ended_by = [];
  identity = host;
  ready_at = 10;
  limiter = create_channel_limiter;
  admitted = [];
  leases = [];
  ops = [];
  retired = false;
  closed = false;
  idle_timer = false;
  hard_timer = true;
}

abbrev on_lease : Lease
on_lease = record { expired = false; released = false; timer = true }

-- Two reads on one channel: the first was sent, the second waits.
abbrev busy : Connection
busy = run_admitted (read 1 0 on_lease (read 1 0 on_lease (add_lease fresh)))

busy_waits : (busy.limiter.waiting ≡ 1 ∷ []) × (busy.limiter.active ≡ 1) × (busy.admitted ≡ [])
unfolding run_admitted read add_lease acquire update_at get_elem?
busy_waits = (refl, refl, refl)

busy-Lives : Lives 1 busy
unfolding run_admitted read add_lease acquire update_at get_elem?
busy-Lives =
    let one : Lives 1 fresh = installed (record {
      idle = refl;
      none_admitted = refl;
      no_ops = refl;
      is_open = refl;
      not_ended = refl;
    }) in
    let two : Lives 1 (add_lease fresh) = later one (is_leased refl) in
    let three : Lives 1 (read 1 0 on_lease (add_lease fresh)) = later two (reads 0 on_lease refl) in
    later (later three (reads 0 on_lease refl)) admits

Lives-IsSound_example : IsSound 1 busy
Lives-IsSound_example = Lives-IsSound busy-Lives

abbrev cut_off : Connection
cut_off = close_down destroy busy

cut_off-Lives : Lives 1 cut_off
unfolding run_admitted read add_lease acquire get_elem?
cut_off-Lives = later busy-Lives (shuts destroy refl)

cut_off_closed : cut_off.closed ≡ true
unfolding close_down abandon_each ReadConnections.abandon places release_slot run_admitted read
    add_lease acquire release abandon update_at get_elem?
cut_off_closed = refl

closed_settles_example :
    (length cut_off.ended_by ≡ 1)
    × ((j : ℕ) (o : Op)
        → get_elem? cut_off.ops j ≡ some o
        → (o.settled ≡ true) × (o.holds_slot ≡ false) × (answered o.answer ≡ true))
    × (cut_off.limiter.waiting ≡ [])
    × (cut_off.limiter.active ≡ length cut_off.admitted)
closed_settles_example = closed_settles cut_off-Lives cut_off_closed

abbrev settings : ReadConnectionsOptions
settings = record { idle_ms = 10000; hard_age_ms = 120000; channel_limit = 6 }

abbrev first_open : Pending
first_open = record { id = 1; identity = host; generation = 1 }

-- A lease opens a connection, which is leased when it is ready.
abbrev opening : Pool
opening = (lease settings "host-1" host 5000 0 no_connections).1

abbrev ready_pool : Pool
ready_pool = (finish_open "host-1" 0 first_open true ready 10 opening).1

abbrev read_pool : Pool
read_pool = (resume settings "host-1" host 5000 10 0 ready_pool).1

read_pool-Runs : Runs settings read_pool
read_pool-Runs =
    goes_on
      (goes_on (goes_on created (leases "host-1" host 5000 0))
        (opens "host-1" 0 first_open true ready 10))
      (resumes "host-1" host 5000 10 0)

Runs-IsCounted_example : IsCounted read_pool
Runs-IsCounted_example = Runs-IsCounted read_pool-Runs

one_lease : read_pool.lease_count ≡ 1
unfolding lease lease_turn entry_for find_entry start_open finish_open install resume usable
    checkout same_connection_identity add_lease update_at get_elem?
one_lease = refl

abbrev shared : Connection
shared = record fresh { leases = on_lease ∷ [] }

-- A second reader shares the connection.
second_leases : lease settings "host-1" host 5000 20 read_pool ≡ (leased 0, checkout 0 read_pool)
unfolding lease lease_turn entry_for find_entry start_open finish_open install resume usable
    checkout same_connection_identity add_lease update_at get_elem?
second_leases = refl

lease-IsGranted_example :
    (0 < 5000)
    × (5000 < 120000)
    × IsGranted settings host 5000 20 0 read_pool.conns (checkout 0 read_pool).conns
lease-IsGranted_example = lease-IsGranted settings "host-1" host 5000 20 read_pool second_leases

abbrev host_entry : Entry
host_entry = record { generation = 1; installed = some 0; pending = none; connections = 0 ∷ [] }

read_pool_mapped : find_entry "host-1" read_pool.entries ≡ some 0
unfolding lease lease_turn entry_for find_entry start_open finish_open install resume usable
    checkout same_connection_identity add_lease update_at get_elem?
read_pool_mapped = refl

read_pool_entry : get_elem? read_pool.table 0 ≡ some host_entry
unfolding lease lease_turn entry_for find_entry start_open finish_open install resume usable
    checkout same_connection_identity add_lease update_at get_elem?
read_pool_entry = refl

evict-shuts_example :
    ((j : ℕ) (c : Connection)
      → get_elem? read_pool.conns j ≡ some c
      → 1 ≤ times_in j (0 ∷ [])
      → (c' : Connection) × (get_elem? (evict "host-1" read_pool).conns j ≡ some c')
        × (c'.closed ≡ true))
    × ((j : ℕ)
        → times_in j (0 ∷ []) ≡ 0
        → get_elem? (evict "host-1" read_pool).conns j ≡ get_elem? read_pool.conns j)
    × ((options : ReadConnectionsOptions) (later : Pool) (q : Pending) (is_open : Bool)
          (transport : ConnectionState) (now : ℕ)
        → Follows options (evict "host-1" read_pool) later
        → q.generation ≤ read_pool.generations
        → (finish_open "host-1" 0 q is_open transport now later).0 ≡ none)
evict-shuts_example = evict-shuts "host-1" 0 read_pool read_pool_mapped read_pool_entry

-- The host drops the connection.
abbrev dropped_pool : Pool
dropped_pool = record read_pool {
  conns = update_at 0 (λ c. record c { transport = disconnected }) read_pool.conns;
}

abbrev dropped : Connection
dropped = record fresh { transport = disconnected; leases = on_lease ∷ [] }

dropped-IsAlone : IsAlone "host-1" 0 0 dropped dropped_pool
unfolding lease lease_turn entry_for find_entry start_open finish_open install resume usable
    checkout same_connection_identity add_lease update_at get_elem?
dropped-IsAlone = record {
  mapped = refl;
  entry = host_entry;
  in_table = refl;
  is_installed = refl;
  none_pending = refl;
  only_one = refl;
  in_conns = refl;
  of_key = refl;
  of_entry = refl;
  is_open = refl;
}

dropped_unfit : usable dropped host ≡ false
unfolding usable
dropped_unfit = refl

abbrev reopening : Turn × Pool
reopening = lease_turn settings "host-1" host 5000 40 dropped_pool

replacement_escapes_evict_example :
    (q : Pending) × (reopening.0 ≡ starts 0 q.id)
    × (pending_at (get_elem? reopening.1.table 0) ≡ some q)
    × (evict "host-1" reopening.1 ≡ reopening.1)
    × ((new : Connection) × ((finish_open "host-1" 0 q true ready 50 reopening.1).0
          ≡ some (length reopening.1.conns))
        × (get_elem?
              (finish_open "host-1" 0 q true ready 50 reopening.1).1.conns
              (length reopening.1.conns)
            ≡ some new)
        × (new.closed ≡ false)
        × (evict "host-1" (finish_open "host-1" 0 q true ready 50 reopening.1).1
            ≡ (finish_open "host-1" 0 q true ready 50 reopening.1).1))
replacement_escapes_evict_example =
    replacement_escapes_evict settings "host-1" host 5000 40 50 0 0 dropped dropped_pool
      dropped-IsAlone dropped_unfit
