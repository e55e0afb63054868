-- ===== src/Transport/ReadConnections/Leasing/Orphans.antt =====
-- An entry that the map drops while a lease still opens a connection for it.
use open_mcc_manager.Prelude.{
  ℕ, ◌+◌, ◌≡◌, refl, ap, ◌∙◌, inl, inr, true, false, Option, none, some, String, List, [], ◌∷◌,
  ◌++◌, ◌==◌, str_eq, length, get_elem?, update_at, arith, get_elem?-update_at,
  get_elem?-append_one, Bool-cases,
}
use open_mcc_manager.Transport.Limiter.{create_channel_limiter}
use open_mcc_manager.Transport.ReadConnections.{
  ConnectionIdentity, ready, How, destroy, Connection, close_down,
}
use open_mcc_manager.Transport.ReadConnections.Pool.{
  ReadConnectionsOptions, Pending, Entry, Pool, find_entry, delete_entry, entry_for, prune,
  shut_down, forgotten, install, drop_connection, is_unused,
}
use open_mcc_manager.Transport.ReadConnections.Leasing.{
  starts, usable, lease_turn, evict, finish_open, start_open, pending_at,
}

find_entry-delete_entry :
    (key : String) (es : List (String × ℕ)) → find_entry key (delete_entry key es) ≡ none
unfolding find_entry delete_entry
find_entry-delete_entry key [] = refl
find_entry-delete_entry key ((k, e) ∷ es) = elim (Bool-cases (str_eq k key)) [
  | inl same ↦ rw same (find_entry-delete_entry key es)
  | inr other ↦ rw (other, other) (find_entry-delete_entry key es)
]

-- The only connection of an entry, with no open under way.
pub record IsAlone (key : String) (e i : ℕ) (c : Connection) (p : Pool) : Type 0 where
  pub mapped : find_entry key p.entries ≡ some e
  pub entry : Entry
  pub in_table : get_elem? p.table e ≡ some entry
  pub is_installed : entry.installed ≡ some i
  pub none_pending : entry.pending ≡ none
  pub only_one : entry.connections ≡ i ∷ []
  pub in_conns : get_elem? p.conns i ≡ some c
  pub of_key : c.key ≡ key
  pub of_entry : c.entry ≡ e
  pub is_open : c.closed ≡ false

module _ (key : String) (e i : ℕ) (c : Connection) (p : Pool) (a : IsAlone key e i c p) where
  open a use {
    mapped, entry, in_table, is_installed, none_pending, only_one, in_conns, of_key, of_entry,
    is_open,
  }

  orphaned : How → Pool
  orphaned how = record p {
    conns = update_at i (close_down how) p.conns;
    table = update_at e (forgotten i) p.table;
    entries = delete_entry key p.entries;
  }

  forgotten_at : get_elem? (update_at e (forgotten i) p.table) e ≡ some (forgotten i entry)
  forgotten_at = ground (arith, get_elem?-update_at e e (forgotten i) p.table in_table)

  forgotten-is_unused : is_unused (forgotten i entry) ≡ true
  unfolding drop_connection
  forgotten-is_unused = rw (only_one, none_pending) (ground arith)

  shut_down-orphans : (how : How) → shut_down how i p ≡ orphaned how
  unfolding shut_down prune orphaned
  shut_down-orphans how =
      rw (in_conns, is_open, of_key, of_entry, forgotten_at, forgotten-is_unused, mapped)
        (ground arith)

  module _ (options : ReadConnectionsOptions) (identity : ConnectionIdentity) (deadline now : ℕ)
      (unfit : usable c identity ≡ false) where
    abbrev wanted : Pending
    wanted = record { id = p.opens + 1; identity = identity; generation = entry.generation }

    abbrev waits : Entry → Entry
    waits entry = record entry {
      pending =
          some (record { id = p.opens + 1; identity = identity; generation = entry.generation });
    }

    abbrev left : Pool
    left = record p {
      conns = update_at i (close_down destroy) p.conns;
      table = update_at e waits (update_at e (forgotten i) p.table);
      entries = delete_entry key p.entries;
      opens = p.opens + 1;
    }

    lease_turn-orphans :
        lease_turn options key identity deadline now p ≡ (starts e (p.opens + 1), left)
    unfolding lease_turn entry_for start_open orphaned
    lease_turn-orphans =
        rw
          (
            mapped,
            in_table,
            is_installed,
            in_conns,
            unfit,
            shut_down-orphans destroy,
            forgotten_at,
            none_pending,
          )
          refl

    waits_at : get_elem? left.table e ≡ some (waits (forgotten i entry))
    waits_at = ground (arith, get_elem?-update_at e e waits _ forgotten_at)

    abbrev opened_at : ℕ → Connection
    opened_at now' = record {
      key = key;
      entry = e;
      transport = ready;
      ended_by = [];
      identity = identity;
      ready_at = now';
      limiter = create_channel_limiter;
      admitted = [];
      leases = [];
      ops = [];
      retired = false;
      closed = false;
      idle_timer = false;
      hard_timer = true;
    }

    abbrev arrived : Entry → Entry
    arrived entry = record entry { pending = none }

    arrived_at :
        get_elem? (update_at e arrived left.table) e ≡ some (arrived (waits (forgotten i entry)))
    arrived_at = ground (arith, get_elem?-update_at e e arrived _ waits_at)

    forgotten-installed : (forgotten i entry).installed ≡ none
    forgotten-installed = rw is_installed (ground arith)

    abbrev finished : ℕ → Option ℕ × Pool
    finished now' = finish_open key e wanted true ready now' left

    installs :
        (now' : ℕ)
        → ((finished now').0 ≡ some (length left.conns))
          × ((finished now').1.entries ≡ left.entries)
          × ((finished now').1.conns ≡ left.conns ++ opened_at now' ∷ [])
    unfolding finish_open install
    installs now' =
        rw (waits_at, current, same_generation, arrived_at, forgotten-installed) (refl, refl, refl)
      where
        current : (p.opens + 1 == p.opens + 1) ≡ true
        current = ground arith

        same_generation : (entry.generation == entry.generation) ≡ true
        same_generation = ground arith

    not_mapped : find_entry key left.entries ≡ none
    not_mapped = find_entry-delete_entry key p.entries

    evict-misses : (q : Pool) → find_entry key q.entries ≡ none → evict key q ≡ q
    unfolding evict
    evict-misses q h = rw h refl

    get_elem?-opened :
        (now' : ℕ)
        → get_elem? (left.conns ++ opened_at now' ∷ []) (length left.conns) ≡ some (opened_at now')
    get_elem?-opened now' =
        ground (arith, get_elem?-append_one left.conns (opened_at now') (length left.conns))

    escapes :
        (now' : ℕ)
        → (new : Connection) × ((finished now').0 ≡ some (length left.conns))
          × (get_elem? (finished now').1.conns (length left.conns) ≡ some new)
          × (new.closed ≡ false)
          × (evict key (finished now').1 ≡ (finished now').1)
    escapes now' = (
      opened_at now',
      (installs now').0,
      rw ((installs now').2) (get_elem?-opened now'),
      refl,
      evict-misses _ (ap (find_entry key) (installs now').1 ∙ not_mapped),
    )

-- Where the only connection of a host is no longer usable and none is being opened, the lease that
-- replaces it drops the entry from the map and opens the new connection for the dropped entry. The
-- host is evicted without effect then, before the connection opens and after: it opens, it is
-- installed, and it stays open.
pub replacement_escapes_evict :
    (options : ReadConnectionsOptions) (key : String) (identity : ConnectionIdentity)
    (deadline now now' e i : ℕ) (c : Connection) (p : Pool)
    → IsAlone key e i c p
    → usable c identity ≡ false
    → let (turn, left) = lease_turn options key identity deadline now p in
      (q : Pending) × (turn ≡ starts e q.id)
      × (pending_at (get_elem? left.table e) ≡ some q)
      × (evict key left ≡ left)
      × ((new : Connection) × ((finish_open key e q true ready now' left).0
            ≡ some (length left.conns))
          × (get_elem? (finish_open key e q true ready now' left).1.conns (length left.conns)
              ≡ some new)
          × (new.closed ≡ false)
          × (evict key (finish_open key e q true ready now' left).1
              ≡ (finish_open key e q true ready now' left).1))
replacement_escapes_evict options key identity deadline now now' e i c p a unfit =
    rw (lease_turn-orphans key e i c p a options identity deadline now unfit) (
      wanted key e i c p a options identity deadline now unfit,
      refl,
      ap pending_at (waits_at key e i c p a options identity deadline now unfit),
      evict-misses key e i c p a options identity deadline now unfit _
          (not_mapped key e i c p a options identity deadline now unfit),
      escapes key e i c p a options identity deadline now unfit now',
    )
