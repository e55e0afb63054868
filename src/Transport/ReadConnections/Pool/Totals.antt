-- ===== src/Transport/ReadConnections/Pool/Totals.antt =====
-- The leases that are out over all connections, under the calls on the entries.
use open_mcc_manager.Prelude.{
  ℕ, zero, suc, ◌+◌, ◌≡◌, refl, ◌∙◌, inl, inr, true, ◌&&◌, ◌||◌, Option, none, some, String, List,
  [], ◌∷◌, ◌++◌, ltb, get_elem?, update_at, arith, Bool-cases, count_if,
}
use open_mcc_manager.Transport.ReadConnections.{
  ConnectionIdentity, same_connection_identity, ConnectionState, How, end, destroy, Connection,
  close_down, expire,
}
use open_mcc_manager.Transport.ReadConnections.Slots.Leases.{
  live_leases-close_down, live_leases-expire,
}
use open_mcc_manager.Transport.ReadConnections.Pool.{
  Entry, Pool, find_entry, entry_for, entry_found, is_unused, is_at, prune, prune_entry, shut_down,
  shut_connection, live_leases, installed_at, idle_after, after_last_lease, expire_at, expire_lease,
  replace, install, install_in,
}

unfoldable pub total : List Connection → ℕ
total [] = 0
total (c ∷ cs) = live_leases c + total cs

pub total-update_at :
    (i : ℕ) (f : Connection → Connection) (cs : List Connection) {c : Connection}
    → get_elem? cs i ≡ some c
    → total (update_at i f cs) + live_leases c ≡ total cs + live_leases (f c)
unfolding total get_elem? update_at
total-update_at i f [] here = cc
total-update_at zero f (x ∷ cs) here = ground arith
total-update_at (suc i) f (x ∷ cs) here = omega (arith, total-update_at i f cs here)

total-same :
    (i : ℕ) (f : Connection → Connection) (cs : List Connection)
    → ((c : Connection) → live_leases (f c) ≡ live_leases c)
    → total (update_at i f cs) ≡ total cs
unfolding total update_at
total-same i f [] same = refl
total-same zero f (x ∷ cs) same = rw (same x) refl
total-same (suc i) f (x ∷ cs) same = rw (total-same i f cs same) refl

total-append_one :
    (cs : List Connection) (c : Connection) → total (cs ++ c ∷ []) ≡ total cs + live_leases c
unfolding total
total-append_one [] c = omega arith
total-append_one (x ∷ cs) c = omega (arith, total-append_one cs c)

total-append_new :
    (cs : List Connection) (c : Connection) → c.leases ≡ [] → total (cs ++ c ∷ []) ≡ total cs
unfolding live_leases count_if
total-append_new cs c none_yet = ground (arith, total-append_one cs c, none_yet)

-- No lease is given or taken back.
pub record IsEven (p q : Pool) : Type 0 where
  pub same_count : q.lease_count ≡ p.lease_count
  pub same_total : total q.conns ≡ total p.conns

pub IsEven-self : {p : Pool} → IsEven p p
IsEven-self = record { same_count = refl; same_total = refl }

pub IsEven-trans : {p q r : Pool} → IsEven p q → IsEven q r → IsEven p r
IsEven-trans a b = record {
  same_count = b.same_count ∙ a.same_count;
  same_total = b.same_total ∙ a.same_total;
}

prune_entry-IsEven :
    (key : String) (e : ℕ) (m : Option Entry) (p : Pool) → IsEven p (prune_entry key e m p)
unfolding prune_entry
prune_entry-IsEven key e none p = IsEven-self
prune_entry-IsEven key e (some entry) p =
    elim (Bool-cases (is_unused entry && is_at e (find_entry key p.entries))) [
      | inl unused ↦ rw unused (record { same_count = refl; same_total = refl })
      | inr used ↦ rw used IsEven-self
    ]

pub prune-IsEven : (key : String) (e : ℕ) (p : Pool) → IsEven p (prune key e p)
unfolding prune
prune-IsEven key e p = prune_entry-IsEven key e (get_elem? p.table e) p

shut_connection-IsEven :
    (how : How) (i : ℕ) (m : Option Connection) (p : Pool) → IsEven p (shut_connection how i m p)
unfolding shut_connection
shut_connection-IsEven how i none p = IsEven-self
shut_connection-IsEven how i (some c) p = elim (Bool-cases c.closed) [
  | inl before ↦ rw before IsEven-self
  | inr now ↦ rw now (
      IsEven-trans
        (record {
          same_count = refl;
          same_total = total-same i (close_down how) p.conns (live_leases-close_down how);
        })
        (prune-IsEven c.key c.entry _))
]

pub shut_down-IsEven : (how : How) (i : ℕ) (p : Pool) → IsEven p (shut_down how i p)
unfolding shut_down
shut_down-IsEven how i p = shut_connection-IsEven how i (get_elem? p.conns i) p

idle_after-IsEven : (i : ℕ) (m : Option Connection) (p : Pool) → IsEven p (idle_after i m p)
unfolding idle_after
idle_after-IsEven i none p = IsEven-self
idle_after-IsEven i (some c) p = elim (Bool-cases (c.closed || ltb 0 (live_leases c))) [
  | inl busy ↦ rw busy IsEven-self
  | inr free ↦ rw free (elim (Bool-cases c.retired) [
    | inl old ↦ rw old (shut_down-IsEven destroy i p)
    | inr kept ↦ rw kept (elim (Bool-cases (installed_at i (get_elem? p.table c.entry))) [
      | inl there ↦
          rw there
            (record { same_count = refl; same_total = total-same i _ p.conns (λ c. idle-live c) })
      | inr replaced ↦ rw replaced (shut_down-IsEven end i p)
    ])
  ])
]
  where
    idle-live : (c : Connection) → live_leases (record c { idle_timer = true }) ≡ live_leases c
    idle-live c = unfold live_leases in refl

pub after_last_lease-IsEven : (i : ℕ) (p : Pool) → IsEven p (after_last_lease i p)
unfolding after_last_lease
after_last_lease-IsEven i p = idle_after-IsEven i (get_elem? p.conns i) p

expire_at-IsEven :
    (i lease : ℕ) (m : Option Connection) (p : Pool) → IsEven p (expire_at i lease m p)
unfolding expire_at
expire_at-IsEven i lease none p = IsEven-self
expire_at-IsEven i lease (some c) p = record {
  same_count = refl;
  same_total = total-same i (expire lease) p.conns (live_leases-expire lease);
}

pub expire_lease-IsEven : (i lease : ℕ) (p : Pool) → IsEven p (expire_lease i lease p)
unfolding expire_lease
expire_lease-IsEven i lease p = expire_at-IsEven i lease (get_elem? p.conns i) p

replaced_at-IsEven :
    (m : Option Connection) (i : ℕ) (identity : ConnectionIdentity) (p : Pool)
    → get_elem? p.conns i ≡ m
    → IsEven p (replace (some i) identity p)
unfolding replace
replaced_at-IsEven none i identity p e = rw (e, replace) IsEven-self
replaced_at-IsEven (some c) i identity p e =
    rw (e, replace)
      (elim (Bool-cases (same_connection_identity c.identity identity)) [
        | inl same ↦ rw same (after_last_lease-IsEven i p)
        | inr other ↦ rw other (shut_down-IsEven destroy i p)
      ])

replace-IsEven :
    (m : Option ℕ) (identity : ConnectionIdentity) (p : Pool) → IsEven p (replace m identity p)
replace-IsEven none identity p = unfold replace in IsEven-self
replace-IsEven (some i) identity p = replaced_at-IsEven _ i identity p refl

install_in-IsEven :
    (key : String) (e : ℕ) (m : Option Entry) (identity : ConnectionIdentity)
    (transport : ConnectionState) (now : ℕ) (p : Pool)
    → IsEven p (install_in key e m identity transport now p).1
unfolding install_in
install_in-IsEven key e none identity transport now p = IsEven-self
install_in-IsEven key e (some entry) identity transport now p =
    IsEven-trans (record { same_count = refl; same_total = total-append_new p.conns _ refl })
      (replace-IsEven entry.installed identity _)

pub install-IsEven :
    (key : String) (e : ℕ) (identity : ConnectionIdentity) (transport : ConnectionState) (now : ℕ)
    (p : Pool)
    → IsEven p (install key e identity transport now p).1
unfolding install
install-IsEven key e identity transport now p =
    install_in-IsEven key e (get_elem? p.table e) identity transport now p

entry_found-IsEven : (m : Option ℕ) (key : String) (p : Pool) → IsEven p (entry_found m key p).1
unfolding entry_found
entry_found-IsEven none key p = record { same_count = refl; same_total = refl }
entry_found-IsEven (some e) key p = IsEven-self

pub entry_for-IsEven : (key : String) (p : Pool) → IsEven p (entry_for key p).1
unfolding entry_for
entry_for-IsEven key p = entry_found-IsEven (find_entry key p.entries) key p
