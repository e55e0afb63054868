-- ===== src/Transport/ReadConnections/Leasing/Evictions.antt =====
-- Evicting a host: its connections are shut, and an open under way comes to nothing.
use open_mcc_manager.Prelude.{
  ℕ, ◌+◌, ◌≤◌, ◌≡◌, refl, ap, ◌∙◌, inl, inr, Bool, true, false, ◌&&◌, Option, none, some, String,
  List, [], ◌∷◌, ◌==◌, ltb, if◌then◌else◌, get_elem?, update_at, arith, get_elem?-update_at,
  Bool-cases, times_in,
}
use open_mcc_manager.Transport.ReadConnections.{ConnectionState, How, destroy, Connection, is_ready}
use open_mcc_manager.Transport.ReadConnections.Pool.Shutting.{
  shut, shut_at, shut-closed, shut_down-parts, prune-parts,
}
use open_mcc_manager.Transport.ReadConnections.Pool.{
  ReadConnectionsOptions, Pending, Entry, Pool, find_entry, shut_down, has_generation,
}
use open_mcc_manager.Transport.ReadConnections.Leasing.Generations.{
  evict-IsLater, Follows, Follows-IsLater,
}
use open_mcc_manager.Transport.ReadConnections.Leasing.{
  evict, shut_each, finish_open, pending_at, is_pending,
}

shut_at-twice : (how : How) (m : Option Connection) → shut_at how (shut_at how m) ≡ shut_at how m
shut_at-twice how none = refl
shut_at-twice how (some c) = rw (shut-closed how c) refl

shut_each-parts :
    (is : List ℕ) (p : Pool) (j g e : ℕ)
    → (get_elem? (shut_each is p).conns j ≡ (
        if ltb 0 (times_in j is)
        then shut_at destroy (get_elem? p.conns j)
        else get_elem? p.conns j))
      × (has_generation g (get_elem? (shut_each is p).table e)
          ≡ has_generation g (get_elem? p.table e))
unfolding shut_each times_in
shut_each-parts [] p j g e = (refl, refl)
shut_each-parts (i ∷ is) p j g e = (
  (shut_each-parts is (shut_down destroy i p) j g e).0
      ∙ rw (first.0) (elim (Bool-cases (i == j)) [
        | inl same ↦ rw same (ground (arith, shut_at-twice destroy (get_elem? p.conns j)))
        | inr other ↦ rw other (ground arith)
      ]),
  (shut_each-parts is (shut_down destroy i p) j g e).1 ∙ first.1,
)
  where
    first :
        (get_elem? (shut_down destroy i p).conns j
          ≡ (if i == j then shut_at destroy (get_elem? p.conns j) else get_elem? p.conns j))
        × (has_generation g (get_elem? (shut_down destroy i p).table e)
            ≡ has_generation g (get_elem? p.table e))
    first = shut_down-parts destroy i p j g e

module _ (key : String) (e : ℕ) (p : Pool) {entry : Entry}
    (mapped : find_entry key p.entries ≡ some e) (here : get_elem? p.table e ≡ some entry) where
  abbrev renewed : Pool
  renewed = record p {
    generations = p.generations + 1;
    table = update_at e (λ entry. record entry { generation = p.generations + 1 }) p.table;
  }

  evict-parts :
      (j g : ℕ)
      → (get_elem? (evict key p).conns j ≡ (
          if ltb 0 (times_in j entry.connections)
          then shut_at destroy (get_elem? p.conns j)
          else get_elem? p.conns j))
        × (has_generation g (get_elem? (evict key p).table e) ≡ (p.generations + 1 == g))
  unfolding evict
  evict-parts j g =
      rw (mapped, here)
        (
          ap (λ cs. get_elem? cs j) (prune-parts key e _).0
              ∙ (shut_each-parts entry.connections renewed j g e).0,
          ap (λ t. has_generation g (get_elem? t e)) (prune-parts key e _).1
              ∙ (shut_each-parts entry.connections renewed j g e).1
              ∙ ap (has_generation g) renewed_at,
        )
    where
      renewed_at :
          get_elem? renewed.table e ≡ some (record entry { generation = p.generations + 1 })
      renewed_at = ground (
        arith,
        get_elem?-update_at e e (λ entry. record entry { generation = p.generations + 1 }) p.table
            here,
      )

  -- No entry that was there before the eviction has an old generation at `e`, whatever follows.
  never_again :
      (options : ReadConnectionsOptions) (later : Pool) (g : ℕ)
      → Follows options (evict key p) later
      → g ≤ p.generations
      → has_generation g (get_elem? later.table e) ≡ false
  never_again options later g follows old =
      elim (Bool-cases (has_generation g (get_elem? later.table e))) [
        | inl again ↦
            let then_ =
              (Follows-IsLater follows).no_older g e
                (omega (arith, old, (evict-IsLater key p).grows)) again in
            absurd (ground (arith, old, then_, (evict-parts 0 g).1))
        | inr never ↦ never
      ]

  -- Evicting a host that the map knows shuts every connection of the entry that the map holds for it
  -- and leaves every other connection alone; and an open of that entry that was begun before comes to
  -- nothing, whatever leases, opens, timers and evictions come before its end, and whether the host
  -- was reached or not.
  pub evict-shuts :
      ((j : ℕ) (c : Connection)
        → get_elem? p.conns j ≡ some c
        → 1 ≤ times_in j entry.connections
        → (c' : Connection) × (get_elem? (evict key p).conns j ≡ some c') × (c'.closed ≡ true))
      × ((j : ℕ)
          → times_in j entry.connections ≡ 0
          → get_elem? (evict key p).conns j ≡ get_elem? p.conns j)
      × ((options : ReadConnectionsOptions) (later : Pool) (q : Pending) (is_open : Bool)
            (transport : ConnectionState) (now : ℕ)
          → Follows options (evict key p) later
          → q.generation ≤ p.generations
          → (finish_open key e q is_open transport now later).0 ≡ none)
  unfolding finish_open
  evict-shuts = (
    λ j c there member.
        (shut destroy c, (evict-parts j 0).0 ∙ rw (there) (ground arith), shut-closed destroy c),
    λ j absent. (evict-parts j 0).0 ∙ rw absent refl,
    λ options later q is_open transport now follows old.
        rw
          (overtaken q is_open transport later (never_again options later q.generation follows old))
          refl,
  )
    where
      overtaken :
          (q : Pending) (is_open : Bool) (transport : ConnectionState) (later : Pool)
          → has_generation q.generation (get_elem? later.table e) ≡ false
          → (is_open
              && is_pending q.id (pending_at (get_elem? later.table e))
              && has_generation q.generation (get_elem? later.table e)
              && is_ready transport)
            ≡ false
      overtaken q is_open transport later never = rw never (ground arith)
