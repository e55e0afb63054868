-- ===== src/Transport/ReadConnections/Leasing/Active.antt =====
-- `activeLeases()` over all that can happen to the pool.
use open_mcc_manager.Prelude.{
  ℕ, ◌+◌, ◌≡◌, refl, inl, inr, Bool, ◌&&◌, Option, none, some, String, [], ltb, leb, get_elem?,
  update_at, arith, Bool-cases,
}
use open_mcc_manager.Transport.ReadConnections.{
  ConnectionIdentity, ConnectionState, How, destroy, Connection,
}
use open_mcc_manager.Transport.ReadConnections.Slots.Leases.{}
use open_mcc_manager.Transport.ReadConnections.Pool.{
  ReadConnectionsOptions, Pending, Pool, shut_down, expire_lease, live_leases,
}
use open_mcc_manager.Transport.ReadConnections.Pool.Totals.{
  total, total-update_at, IsEven, IsEven-self, IsEven-trans, shut_down-IsEven, expire_lease-IsEven,
  entry_for-IsEven,
}
use open_mcc_manager.Transport.ReadConnections.Leasing.Counting.{
  IsCounted, even-IsCounted, checkout-IsCounted, start_open-IsEven, finish_open-IsEven,
  evict-IsEven, release_reader-IsCounted,
}
use open_mcc_manager.Transport.ReadConnections.Leasing.{
  pending_at, finish_open, usable, await_open, is_joinable, with_connection, with_installed,
  lease_turn, lease, resume, resume_with, release_reader, evict,
}

await_open-IsEven :
    (identity : ConnectionIdentity) (e : ℕ) (p : Pool) → IsEven p (await_open identity e p).1
unfolding await_open
await_open-IsEven identity e p =
    elim (Bool-cases
      (is_joinable identity (get_elem? p.table e) (pending_at (get_elem? p.table e)))) [
        | inl joins ↦ rw joins IsEven-self
        | inr starts ↦ rw starts (start_open-IsEven identity e p)
      ]

module _ (options : ReadConnectionsOptions) (identity : ConnectionIdentity) (deadline now : ℕ) where
  with_connection-IsCounted :
      (e i : ℕ) (m : Option Connection) (p : Pool)
      → get_elem? p.conns i ≡ m
      → IsCounted p
      → IsCounted (with_connection options identity deadline now e i m p).1
  unfolding with_connection
  with_connection-IsCounted e i none p here k = even-IsCounted (await_open-IsEven identity e p) k
  with_connection-IsCounted e i (some c) p here k = elim (Bool-cases (usable c identity)) [
    | inl fits ↦
        rw fits (elim (Bool-cases (leb (now + deadline) (c.ready_at + options.hard_age_ms))) [
          | inl young ↦ rw young (checkout-IsCounted i p here k)
          | inr old ↦ rw old (even-IsCounted (await_open-IsEven identity e p) k)
        ])
    | inr unfit ↦ rw unfit (
        even-IsCounted
          (IsEven-trans (shut_down-IsEven destroy i p) (await_open-IsEven identity e _)) k)
  ]

  with_installed-IsCounted :
      (e : ℕ) (m : Option ℕ) (p : Pool)
      → IsCounted p
      → IsCounted (with_installed options identity deadline now e m p).1
  unfolding with_installed
  with_installed-IsCounted e none p k = even-IsCounted (await_open-IsEven identity e p) k
  with_installed-IsCounted e (some i) p k = with_connection-IsCounted e i _ p refl k

  lease_turn-IsCounted :
      (key : String) (p : Pool)
      → IsCounted p
      → IsCounted (lease_turn options key identity deadline now p).1
  unfolding lease_turn
  lease_turn-IsCounted key p k =
      with_installed-IsCounted _ _ _ (even-IsCounted (entry_for-IsEven key p) k)

  pub lease-IsCounted :
      (key : String) (p : Pool)
      → IsCounted p
      → IsCounted (lease options key identity deadline now p).1
  unfolding lease
  lease-IsCounted key p k = elim (Bool-cases (ltb 0 deadline && ltb deadline options.hard_age_ms)) [
    | inl fits ↦ rw fits (lease_turn-IsCounted key p k)
    | inr not_allowed ↦ rw not_allowed k
  ]

  resume_with-IsCounted :
      (key : String) (i : ℕ) (m : Option Connection) (p : Pool)
      → get_elem? p.conns i ≡ m
      → IsCounted p
      → IsCounted (resume_with options key identity deadline now i m p).1
  unfolding resume_with
  resume_with-IsCounted key i none p here k = lease_turn-IsCounted key p k
  resume_with-IsCounted key i (some c) p here k = elim (Bool-cases (usable c identity)) [
    | inl fits ↦ rw fits (checkout-IsCounted i p here k)
    | inr unfit ↦ rw unfit (lease_turn-IsCounted key p k)
  ]

  pub resume-IsCounted :
      (key : String) (i : ℕ) (p : Pool)
      → IsCounted p
      → IsCounted (resume options key identity deadline now i p).1
  unfolding resume
  resume-IsCounted key i p k = resume_with-IsCounted key i _ p refl k

-- What can happen to the pool: readers lease and give back, opens end, timers fire, hosts are
-- evicted; and the reads of a connection go on, which gives no lease and takes none.
pub data Happens (options : ReadConnectionsOptions) (p : Pool) : Pool → Type 0 where
  leases :
      (key : String) (identity : ConnectionIdentity) (deadline now : ℕ)
      → Happens options p (lease options key identity deadline now p).1
  resumes :
      (key : String) (identity : ConnectionIdentity) (deadline now i : ℕ)
      → Happens options p (resume options key identity deadline now i p).1
  opens :
      (key : String) (e : ℕ) (q : Pending) (is_open : Bool) (transport : ConnectionState) (now : ℕ)
      → Happens options p (finish_open key e q is_open transport now p).1
  gives_back : (i id : ℕ) → Happens options p (release_reader i id p)
  is_late : (i id : ℕ) → Happens options p (expire_lease i id p)
  shuts : (how : How) (i : ℕ) → Happens options p (shut_down how i p)
  evicts : (key : String) → Happens options p (evict key p)
  works :
      (i : ℕ) (c d : Connection)
      → get_elem? p.conns i ≡ some c
      → d.leases ≡ c.leases
      → Happens options p (record p { conns = update_at i (λ _. d) p.conns })

abbrev pub no_connections : Pool
no_connections = record {
  entries = [];
  table = [];
  conns = [];
  generations = 0;
  opens = 0;
  lease_count = 0;
}

pub data Runs (options : ReadConnectionsOptions) : Pool → Type 0 where
  created : Runs options no_connections
  goes_on : {p q : Pool} → Runs options p → Happens options p q → Runs options q

works-IsCounted :
    (i : ℕ) (c d : Connection) (p : Pool)
    → get_elem? p.conns i ≡ some c
    → d.leases ≡ c.leases
    → IsCounted p
    → IsCounted (record p { conns = update_at i (λ _. d) p.conns })
unfolding live_leases
works-IsCounted i c d p here same k = record {
  exact = ground (arith, k, total-update_at i (λ _. d) p.conns here, same);
}

Happens-IsCounted :
    (options : ReadConnectionsOptions) {p q : Pool}
    → Happens options p q
    → IsCounted p
    → IsCounted q
Happens-IsCounted options {p} (leases key identity deadline now) k =
    lease-IsCounted options identity deadline now key p k
Happens-IsCounted options {p} (resumes key identity deadline now i) k =
    resume-IsCounted options identity deadline now key i p k
Happens-IsCounted options {p} (opens key e q is_open transport now) k =
    even-IsCounted (finish_open-IsEven key e q is_open transport now p) k
Happens-IsCounted options {p} (gives_back i id) k = release_reader-IsCounted i id p k
Happens-IsCounted options {p} (is_late i id) k = even-IsCounted (expire_lease-IsEven i id p) k
Happens-IsCounted options {p} (shuts how i) k = even-IsCounted (shut_down-IsEven how i p) k
Happens-IsCounted options {p} (evicts key) k = even-IsCounted (evict-IsEven key p) k
Happens-IsCounted options {p} (works i c d here same) k = works-IsCounted i c d p here same k

-- Whatever readers, opens, timers and evictions do, in any order: the number of active leases that
-- the pool reports is the number of leases that were given out and not given back, over all the
-- connections it ever had, closed ones included.
pub Runs-IsCounted : {options : ReadConnectionsOptions} {p : Pool} → Runs options p → IsCounted p
unfolding total
Runs-IsCounted created = record { exact = refl }
Runs-IsCounted (goes_on r h) = Happens-IsCounted _ h (Runs-IsCounted r)
