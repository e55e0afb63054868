-- ===== src/Transport/ReadConnections/Leasing/Generations.antt =====
-- Over all that can happen to the pool, no entry takes a generation again that was there before.
use open_mcc_manager.Prelude.{
  ℕ, zero, suc, ◌+◌, ◌≤◌, ◌≡◌, refl, inl, inr, Bool, true, false, ◌&&◌, Option, none, some, String,
  List, [], ◌∷◌, ltb, leb, get_elem?, update_at, arith, Bool-cases,
}
use open_mcc_manager.Transport.ReadConnections.{
  ConnectionIdentity, ConnectionState, destroy, Connection, Lease,
}
use open_mcc_manager.Transport.ReadConnections.Pool.{
  ReadConnectionsOptions, Pending, Entry, Pool, find_entry, has_generation,
}
use open_mcc_manager.Transport.ReadConnections.Pool.Generations.{
  IsLater, IsLater-self, IsLater-trans, kept-IsLater, prune-IsLater, shut_down-IsLater,
  after_last_lease-IsLater, expire_lease-IsLater, install-IsLater, entry_for-IsLater,
}
use open_mcc_manager.Transport.ReadConnections.Leasing.Active.{
  Happens, leases, resumes, opens, gives_back, is_late, shuts, evicts, works,
}
use open_mcc_manager.Transport.ReadConnections.Leasing.{
  start_open, start_at, give_up_open, is_pending, pending_at, finish_open, install_current, usable,
  checkout, await_open, is_joinable, with_connection, with_installed, lease_turn, lease, resume,
  resume_with, release_reader, release_from, shut_each, evict, evict_entry, evict_found,
}

start_at-IsLater :
    (identity : ConnectionIdentity) (e : ℕ) (m : Option Entry) (p : Pool)
    → IsLater p (start_at identity e m p).1
unfolding start_at
start_at-IsLater identity e none p = IsLater-self refl refl
start_at-IsLater identity e (some entry) p = kept-IsLater e _ (λ y. refl) refl refl

start_open-IsLater :
    (identity : ConnectionIdentity) (e : ℕ) (p : Pool) → IsLater p (start_open identity e p).1
unfolding start_open
start_open-IsLater identity e p = start_at-IsLater identity e (get_elem? p.table e) p

give_up_open-IsLater : (key : String) (e id : ℕ) (p : Pool) → IsLater p (give_up_open key e id p)
unfolding give_up_open
give_up_open-IsLater key e id p =
    elim (Bool-cases (is_pending id (pending_at (get_elem? p.table e)))) [
      | inl ours ↦
          rw ours (IsLater-trans (kept-IsLater e _ (λ y. refl) refl refl) (prune-IsLater key e _))
      | inr other ↦ rw other (IsLater-self refl refl)
    ]

install_current-IsLater :
    (current : Bool) (key : String) (e id : ℕ) (identity : ConnectionIdentity)
    (transport : ConnectionState) (now : ℕ) (p : Pool)
    → IsLater p (install_current current key e id identity transport now p).1
unfolding install_current
install_current-IsLater false key e id identity transport now p = give_up_open-IsLater key e id p
install_current-IsLater true key e id identity transport now p =
    IsLater-trans (kept-IsLater e _ (λ y. refl) refl refl)
      (install-IsLater key e identity transport now _)

finish_open-IsLater :
    (key : String) (e : ℕ) (q : Pending) (is_open : Bool) (transport : ConnectionState) (now : ℕ)
    (p : Pool)
    → IsLater p (finish_open key e q is_open transport now p).1
unfolding finish_open
finish_open-IsLater key e q is_open transport now p =
    install_current-IsLater _ key e q.id q.identity transport now p

shut_each-IsLater : (is : List ℕ) (p : Pool) → IsLater p (shut_each is p)
unfolding shut_each
shut_each-IsLater [] p = IsLater-self refl refl
shut_each-IsLater (i ∷ is) p =
    IsLater-trans (shut_down-IsLater destroy i p) (shut_each-IsLater is _)

renewed_older :
    (n g e x : ℕ) (t : List Entry)
    → g ≤ n
    → has_generation g (get_elem? (update_at x (λ y. record y { generation = n + 1 }) t) e) ≡ true
    → has_generation g (get_elem? t e) ≡ true
unfolding get_elem? update_at
renewed_older n g e x [] old h = h
renewed_older n g zero zero (y ∷ t) old h = absurd (ground (arith, old, h))
renewed_older n g (suc e) zero (y ∷ t) old h = h
renewed_older n g zero (suc x) (y ∷ t) old h = h
renewed_older n g (suc e) (suc x) (y ∷ t) old h = renewed_older n g e x t old h

evict_entry-IsLater :
    (key : String) (e : ℕ) (m : Option Entry) (p : Pool) → IsLater p (evict_entry key e m p)
unfolding evict_entry
evict_entry-IsLater key e none p = IsLater-self refl refl
evict_entry-IsLater key e (some entry) p =
    IsLater-trans
      (IsLater-trans
        (record {
          grows = omega arith;
          no_older = λ g i old h. renewed_older p.generations g i e p.table old h;
        })
        (shut_each-IsLater entry.connections _))
      (prune-IsLater key e _)

evict_found-IsLater : (key : String) (m : Option ℕ) (p : Pool) → IsLater p (evict_found key m p)
unfolding evict_found
evict_found-IsLater key none p = IsLater-self refl refl
evict_found-IsLater key (some e) p = evict_entry-IsLater key e (get_elem? p.table e) p

pub evict-IsLater : (key : String) (p : Pool) → IsLater p (evict key p)
unfolding evict
evict-IsLater key p = evict_found-IsLater key (find_entry key p.entries) p

release_known-IsLater :
    (i id : ℕ) (c : Connection) (n : Option Lease) (p : Pool)
    → get_elem? c.leases id ≡ n
    → IsLater p (release_from i id (some c) p)
unfolding release_from
release_known-IsLater i id c none p there = rw (there, release_from) (IsLater-self refl refl)
release_known-IsLater i id c (some l) p there = elim (Bool-cases l.released) [
  | inl again ↦ rw (there, release_from) (rw again (IsLater-self refl refl))
  | inr out ↦
      rw (there, release_from)
        (rw out (IsLater-trans (IsLater-self refl refl) (after_last_lease-IsLater i _)))
]

release_from-IsLater :
    (i id : ℕ) (m : Option Connection) (p : Pool) → IsLater p (release_from i id m p)
release_from-IsLater i id none p = unfold release_from in IsLater-self refl refl
release_from-IsLater i id (some c) p = release_known-IsLater i id c _ p refl

await_open-IsLater :
    (identity : ConnectionIdentity) (e : ℕ) (p : Pool) → IsLater p (await_open identity e p).1
unfolding await_open
await_open-IsLater identity e p =
    elim (Bool-cases
      (is_joinable identity (get_elem? p.table e) (pending_at (get_elem? p.table e)))) [
        | inl joins ↦ rw joins (IsLater-self refl refl)
        | inr starts ↦ rw starts (start_open-IsLater identity e p)
      ]

module _ (options : ReadConnectionsOptions) (identity : ConnectionIdentity) (deadline now : ℕ) where
  with_connection-IsLater :
      (e i : ℕ) (m : Option Connection) (p : Pool)
      → IsLater p (with_connection options identity deadline now e i m p).1
  unfolding with_connection
  with_connection-IsLater e i none p = await_open-IsLater identity e p
  with_connection-IsLater e i (some c) p = elim (Bool-cases (usable c identity)) [
    | inl fits ↦
        rw fits (elim (Bool-cases (leb (now + deadline) (c.ready_at + options.hard_age_ms))) [
          | inl young ↦ rw young (unfold checkout in IsLater-self refl refl)
          | inr old ↦ rw old (await_open-IsLater identity e p)
        ])
    | inr unfit ↦
        rw unfit (IsLater-trans (shut_down-IsLater destroy i p) (await_open-IsLater identity e _))
  ]

  with_installed-IsLater :
      (e : ℕ) (m : Option ℕ) (p : Pool)
      → IsLater p (with_installed options identity deadline now e m p).1
  unfolding with_installed
  with_installed-IsLater e none p = await_open-IsLater identity e p
  with_installed-IsLater e (some i) p = with_connection-IsLater e i _ p

  lease_turn-IsLater :
      (key : String) (p : Pool) → IsLater p (lease_turn options key identity deadline now p).1
  unfolding lease_turn
  lease_turn-IsLater key p = IsLater-trans (entry_for-IsLater key p) (with_installed-IsLater _ _ _)

  lease-IsLater :
      (key : String) (p : Pool) → IsLater p (lease options key identity deadline now p).1
  unfolding lease
  lease-IsLater key p = elim (Bool-cases (ltb 0 deadline && ltb deadline options.hard_age_ms)) [
    | inl fits ↦ rw fits (lease_turn-IsLater key p)
    | inr not_allowed ↦ rw not_allowed (IsLater-self refl refl)
  ]

  resume_with-IsLater :
      (key : String) (i : ℕ) (m : Option Connection) (p : Pool)
      → IsLater p (resume_with options key identity deadline now i m p).1
  unfolding resume_with
  resume_with-IsLater key i none p = lease_turn-IsLater key p
  resume_with-IsLater key i (some c) p = elim (Bool-cases (usable c identity)) [
    | inl fits ↦ rw fits (unfold checkout in IsLater-self refl refl)
    | inr unfit ↦ rw unfit (lease_turn-IsLater key p)
  ]

pub Happens-IsLater :
    (options : ReadConnectionsOptions) {p q : Pool} → Happens options p q → IsLater p q
unfolding resume release_reader
Happens-IsLater options {p} (leases key identity deadline now) =
    lease-IsLater options identity deadline now key p
Happens-IsLater options {p} (resumes key identity deadline now i) =
    resume_with-IsLater options identity deadline now key i _ p
Happens-IsLater options {p} (opens key e q is_open transport now) =
    finish_open-IsLater key e q is_open transport now p
Happens-IsLater options {p} (gives_back i id) = release_from-IsLater i id _ p
Happens-IsLater options {p} (is_late i id) = expire_lease-IsLater i id p
Happens-IsLater options {p} (shuts how i) = shut_down-IsLater how i p
Happens-IsLater options {p} (evicts key) = evict-IsLater key p
Happens-IsLater options {p} (works i c d here same) = IsLater-self refl refl

-- What the pool may have become by the steps that follow.
pub data Follows (options : ReadConnectionsOptions) (p : Pool) : Pool → Type 0 where
  at_once : Follows options p p
  next : {q r : Pool} → Follows options p q → Happens options q r → Follows options p r

pub Follows-IsLater :
    {options : ReadConnectionsOptions} {p q : Pool} → Follows options p q → IsLater p q
Follows-IsLater at_once = IsLater-self refl refl
Follows-IsLater {options} (next f h) = IsLater-trans (Follows-IsLater f) (Happens-IsLater options h)
