-- ===== src/Transport/ReadConnections/Leasing/Counting.antt =====
-- The count of the leases under each call on the pool.
use open_mcc_manager.Prelude.{
  ℕ, ◌-◌, ◌≡◌, refl, sym, ◌∙◌, inl, inr, Bool, true, false, Option, none, some, String, List, [],
  ◌∷◌, get_elem?, update_at, arith, Bool-cases,
}
use open_mcc_manager.Transport.ReadConnections.{
  ConnectionIdentity, ConnectionState, destroy, Connection, Lease, give_up_lease, add_lease,
}
use open_mcc_manager.Transport.ReadConnections.Slots.Leases.{
  live_leases-add_lease, live_leases-give_up_lease,
}
use open_mcc_manager.Transport.ReadConnections.Pool.{Pending, Entry, Pool, find_entry}
use open_mcc_manager.Transport.ReadConnections.Pool.Totals.{
  total, total-update_at, IsEven, IsEven-self, IsEven-trans, prune-IsEven, shut_down-IsEven,
  after_last_lease-IsEven, install-IsEven,
}
use open_mcc_manager.Transport.ReadConnections.Leasing.{
  start_open, start_at, give_up_open, is_pending, pending_at, finish_open, install_current,
  checkout, release_reader, release_from, shut_each, evict, evict_entry, evict_found,
}

-- The count is the number of leases that are out.
pub record IsCounted (p : Pool) : Type 0 where
  pub exact : p.lease_count ≡ total p.conns

pub even-IsCounted : {p q : Pool} → IsEven p q → IsCounted p → IsCounted q
even-IsCounted e k = record { exact = e.same_count ∙ k.exact ∙ sym e.same_total }

start_at-IsEven :
    (identity : ConnectionIdentity) (e : ℕ) (m : Option Entry) (p : Pool)
    → IsEven p (start_at identity e m p).1
unfolding start_at
start_at-IsEven identity e none p = record { same_count = refl; same_total = refl }
start_at-IsEven identity e (some entry) p = record { same_count = refl; same_total = refl }

pub start_open-IsEven :
    (identity : ConnectionIdentity) (e : ℕ) (p : Pool) → IsEven p (start_open identity e p).1
unfolding start_open
start_open-IsEven identity e p = start_at-IsEven identity e (get_elem? p.table e) p

give_up_open-IsEven : (key : String) (e id : ℕ) (p : Pool) → IsEven p (give_up_open key e id p)
unfolding give_up_open
give_up_open-IsEven key e id p =
    elim (Bool-cases (is_pending id (pending_at (get_elem? p.table e)))) [
      | inl ours ↦
          rw ours
            (IsEven-trans (record { same_count = refl; same_total = refl }) (prune-IsEven key e _))
      | inr other ↦ rw other IsEven-self
    ]

install_current-IsEven :
    (current : Bool) (key : String) (e id : ℕ) (identity : ConnectionIdentity)
    (transport : ConnectionState) (now : ℕ) (p : Pool)
    → IsEven p (install_current current key e id identity transport now p).1
unfolding install_current
install_current-IsEven false key e id identity transport now p = give_up_open-IsEven key e id p
install_current-IsEven true key e id identity transport now p =
    IsEven-trans (record { same_count = refl; same_total = refl })
      (install-IsEven key e identity transport now _)

pub finish_open-IsEven :
    (key : String) (e : ℕ) (q : Pending) (is_open : Bool) (transport : ConnectionState) (now : ℕ)
    (p : Pool)
    → IsEven p (finish_open key e q is_open transport now p).1
unfolding finish_open
finish_open-IsEven key e q is_open transport now p =
    install_current-IsEven _ key e q.id q.identity transport now p

shut_each-IsEven : (is : List ℕ) (p : Pool) → IsEven p (shut_each is p)
unfolding shut_each
shut_each-IsEven [] p = IsEven-self
shut_each-IsEven (i ∷ is) p = IsEven-trans (shut_down-IsEven destroy i p) (shut_each-IsEven is _)

evict_entry-IsEven :
    (key : String) (e : ℕ) (m : Option Entry) (p : Pool) → IsEven p (evict_entry key e m p)
unfolding evict_entry
evict_entry-IsEven key e none p = IsEven-self
evict_entry-IsEven key e (some entry) p =
    IsEven-trans
      (IsEven-trans (record { same_count = refl; same_total = refl })
        (shut_each-IsEven entry.connections _))
      (prune-IsEven key e _)

evict_found-IsEven : (key : String) (m : Option ℕ) (p : Pool) → IsEven p (evict_found key m p)
unfolding evict_found
evict_found-IsEven key none p = IsEven-self
evict_found-IsEven key (some e) p = evict_entry-IsEven key e (get_elem? p.table e) p

pub checkout-IsCounted :
    (i : ℕ) (p : Pool) {c : Connection}
    → get_elem? p.conns i ≡ some c
    → IsCounted p
    → IsCounted (checkout i p)
unfolding checkout
checkout-IsCounted i p {c} here k = record {
  exact = omega (arith, k.exact, total-update_at i add_lease p.conns here, live_leases-add_lease c);
}

pub evict-IsEven : (key : String) (p : Pool) → IsEven p (evict key p)
unfolding evict
evict-IsEven key p = evict_found-IsEven key (find_entry key p.entries) p

release_out :
    (i id : ℕ) (p : Pool) {c : Connection} {l : Lease}
    → get_elem? p.conns i ≡ some c
    → get_elem? c.leases id ≡ some l
    → l.released ≡ false
    → IsCounted p
    → IsCounted (record p {
      conns = update_at i (give_up_lease id) p.conns;
      lease_count = p.lease_count - 1;
    })
release_out i id p {c} here there out k = record {
  exact = omega (
    arith,
    k.exact,
    total-update_at i (give_up_lease id) p.conns here,
    live_leases-give_up_lease id c there out,
  );
}

release_known-IsCounted :
    (i id : ℕ) (c : Connection) (n : Option Lease) (p : Pool)
    → get_elem? p.conns i ≡ some c
    → get_elem? c.leases id ≡ n
    → IsCounted p
    → IsCounted (release_from i id (some c) p)
unfolding release_from
release_known-IsCounted i id c none p here there k = rw (there, release_from) k
release_known-IsCounted i id c (some l) p here there k = elim (Bool-cases l.released) [
  | inl again ↦ rw (there, release_from) (rw again k)
  | inr out ↦
      rw (there, release_from)
        (rw out
          (even-IsCounted (after_last_lease-IsEven i _) (release_out i id p here there out k)))
]

release_from-IsCounted :
    (i id : ℕ) (m : Option Connection) (p : Pool)
    → get_elem? p.conns i ≡ m
    → IsCounted p
    → IsCounted (release_from i id m p)
release_from-IsCounted i id none p here k = unfold release_from in k
release_from-IsCounted i id (some c) p here k = release_known-IsCounted i id c _ p here refl k

pub release_reader-IsCounted :
    (i id : ℕ) (p : Pool) → IsCounted p → IsCounted (release_reader i id p)
unfolding release_reader
release_reader-IsCounted i id p k = release_from-IsCounted i id _ p refl k
