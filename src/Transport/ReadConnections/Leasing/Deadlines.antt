-- ===== src/Transport/ReadConnections/Leasing/Deadlines.antt =====
-- Which connection a lease is given on, and how long it can last.
use open_mcc_manager.Prelude.{
  ℕ, ◌+◌, ◌≤◌, ◌<◌, ◌≡◌, refl, sym, ◌∙◌, ◌==◌, str_eq_iff, false, inl, inr, true, ◌&&◌, Option,
  none, some, String, List, ltb, leb, get_elem?, get_elem?-update_at, arith, Bool-cases,
  Option-cases,
}
use mathlib.Core.Path.{subst}
use open_mcc_manager.Transport.ReadConnections.{
  ConnectionIdentity, same_connection_identity, destroy, Connection, is_ready, add_lease,
}
use open_mcc_manager.Transport.ReadConnections.Pool.{
  ReadConnectionsOptions, Pool, find_entry, entry_for, shut_down,
}
use open_mcc_manager.Transport.ReadConnections.Leasing.{
  Turn, out_of_range, leased, joins, starts, pending_at, usable, checkout, await_open, is_joinable,
  with_connection, with_installed, lease_turn, lease,
}

-- What a turn that gives a lease on connection `i` has found there and leaves there.
pub record IsGranted (options : ReadConnectionsOptions) (identity : ConnectionIdentity)
    (deadline now i : ℕ) (before after : List Connection) : Type 0 where
  pub connection : Connection
  pub found : get_elem? before i ≡ some connection
  pub not_closed : connection.closed ≡ false
  pub not_retired : connection.retired ≡ false
  pub ready : is_ready connection.transport ≡ true
  pub same_identity : connection.identity ≡ identity
  pub outlives : now + deadline ≤ connection.ready_at + options.hard_age_ms
  pub is_leased : get_elem? after i ≡ some (add_lease connection)
  pub others : (j : ℕ) → (i == j) ≡ false → get_elem? after j ≡ get_elem? before j

identity-eq : (a b : ConnectionIdentity) → same_connection_identity a b ≡ true → a ≡ b
unfolding same_connection_identity
identity-eq a b same = λ i. record {
  hostname = (str_eq_iff a.hostname b.hostname).0 (ground (arith, same)) i;
  port = (the_ports (ground (arith, same))) i;
  username = (str_eq_iff a.username b.username).0 (ground (arith, same)) i;
  ssh_key_id = (str_eq_iff a.ssh_key_id b.ssh_key_id).0 (ground (arith, same)) i;
  host_key_fingerprint =
      (str_eq_iff a.host_key_fingerprint b.host_key_fingerprint).0 (ground (arith, same)) i;
}
  where
    the_ports : (a.port == b.port) ≡ true → a.port ≡ b.port
    the_ports h = ground (arith, h)

module _ (options : ReadConnectionsOptions) (identity : ConnectionIdentity) (deadline now : ℕ) where
  abbrev Grants : List Connection → Turn × Pool → Type 0
  Grants before (leased i, after) = IsGranted options identity deadline now i before after.conns
  Grants before (out_of_range, after) = Unit {0}
  Grants before (joins e id, after) = Unit {0}
  Grants before (starts e id, after) = Unit {0}

  await_open-Grants :
      (before : List Connection) (e : ℕ) (p : Pool) → Grants before (await_open identity e p)
  unfolding await_open
  await_open-Grants before e p =
      elim (Bool-cases
        (is_joinable identity (get_elem? p.table e) (pending_at (get_elem? p.table e)))) [
          | inl joined ↦ rw joined tt
          | inr started ↦ rw started tt
        ]

  with_connection-Grants :
      (e i : ℕ) (m : Option Connection) (p : Pool)
      → get_elem? p.conns i ≡ m
      → Grants p.conns (with_connection options identity deadline now e i m p)
  unfolding with_connection checkout
  with_connection-Grants e i none p here = await_open-Grants p.conns e p
  with_connection-Grants e i (some c) p here = elim (Bool-cases (usable c identity)) [
    | inl fits ↦
        rw fits (elim (Bool-cases (leb (now + deadline) (c.ready_at + options.hard_age_ms))) [
          | inl young ↦ rw young (record {
            connection = c;
            found = here;
            not_closed = unfold usable in ground arith;
            not_retired = unfold usable in ground arith;
            ready = unfold usable in ground arith;
            same_identity = identity-eq c.identity identity (unfold usable in ground arith);
            outlives = ground arith;
            is_leased = ground (arith, get_elem?-update_at i i add_lease p.conns here);
            others =
                λ j apart. ground (arith, get_elem?-update_at i j add_lease p.conns here, apart);
          })
          | inr old ↦ rw old (await_open-Grants p.conns e p)
        ])
    | inr unfit ↦ rw unfit (await_open-Grants p.conns e (shut_down destroy i p))
  ]

  with_installed-Grants :
      (e : ℕ) (m : Option ℕ) (p : Pool)
      → Grants p.conns (with_installed options identity deadline now e m p)
  unfolding with_installed
  with_installed-Grants e none p = await_open-Grants p.conns e p
  with_installed-Grants e (some i) p = with_connection-Grants e i _ p refl

  entry_for-conns : (key : String) (p : Pool) → (entry_for key p).1.conns ≡ p.conns
  unfolding entry_for
  entry_for-conns key p = elim (Option-cases (find_entry key p.entries)) [
    | inl missing ↦ rw missing refl
    | inr (e, found) ↦ rw found refl
  ]

  lease_turn-Grants :
      (key : String) (p : Pool) → Grants p.conns (lease_turn options key identity deadline now p)
  unfolding lease_turn
  lease_turn-Grants key p =
      subst (λ cs. Grants cs (lease_turn options key identity deadline now p))
        (entry_for-conns key p) (with_installed-Grants (entry_for key p).0 _ (entry_for key p).1)

-- A lease that is given at once is on a connection that is not closed and not retired, whose
-- transport is ready and which was opened for the same host, port, user, key and host key; its
-- deadline is not after the hard age of that connection, and is above zero and below the hard age.
-- The lease is entered on that connection, and every other connection stays as it is.
pub lease-IsGranted :
    (options : ReadConnectionsOptions) (key : String) (identity : ConnectionIdentity)
    (deadline now : ℕ) (p : Pool) {i : ℕ} {after : Pool}
    → lease options key identity deadline now p ≡ (leased i, after)
    → (0 < deadline)
      × (deadline < options.hard_age_ms)
      × IsGranted options identity deadline now i p.conns after.conns
unfolding lease
lease-IsGranted options key identity deadline now p {i} {after} given =
    elim (Bool-cases (ltb 0 deadline && ltb deadline options.hard_age_ms)) [
      | inl fits ↦
          let turn : lease_turn options key identity deadline now p ≡ (leased i, after) =
            sym (allowed fits) ∙ given in
          (
            ground arith,
            ground arith,
            subst (Grants options identity deadline now p.conns) turn
                (lease_turn-Grants options identity deadline now key p),
          )
      | inr wrong ↦ absurd (ground (arith, given, wrong))
    ]
  where
    allowed :
        (ltb 0 deadline && ltb deadline options.hard_age_ms) ≡ true
        → lease options key identity deadline now p ≡ lease_turn options key identity deadline now p
    allowed fits = rw fits refl
