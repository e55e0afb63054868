-- ===== src/Transport/ReadConnections/Pool/Shutting.antt =====
-- What shutting a connection does to the tables of the pool.
use open_mcc_manager.Prelude.{
  ℕ, zero, suc, ◌≡◌, refl, ap, ◌∙◌, sym, inl, inr, Bool, true, false, ◌&&◌, Option, none, some,
  String, List, [], ◌∷◌, ◌==◌, if◌then◌else◌, get_elem?, update_at, arith, get_elem?-update_at,
  Bool-cases,
}
use mathlib.Core.Path.{subst}
use open_mcc_manager.Transport.ReadConnections.{How, Connection, close_down, connection_lost}
use open_mcc_manager.Transport.ReadConnections.Slots.Keeping.{abandon_each-Keeps}
use open_mcc_manager.Transport.ReadConnections.Pool.{
  Entry, Pool, find_entry, prune, shut_down, forgotten, is_unused, is_at, has_generation,
  prune_entry, shut_connection,
}

-- A connection that is closed stays as it is.
abbrev pub shut : How → Connection → Connection
shut how c = if c.closed then c else close_down how c

pub shut-closed : (how : How) (c : Connection) → (shut how c).closed ≡ true
unfolding close_down
shut-closed how c = by_closed c.closed refl
  where
    by_closed : (b : Bool) → c.closed ≡ b → (if b then c else close_down how c).closed ≡ true
    by_closed true e = e
    by_closed false e = (abandon_each-Keeps _ connection_lost _).same_closed

prune_entry-parts :
    (key : String) (e : ℕ) (m : Option Entry) (p : Pool)
    → ((prune_entry key e m p).conns ≡ p.conns) × ((prune_entry key e m p).table ≡ p.table)
unfolding prune_entry
prune_entry-parts key e none p = (refl, refl)
prune_entry-parts key e (some entry) p =
    elim (Bool-cases (is_unused entry && is_at e (find_entry key p.entries))) [
      | inl unused ↦ rw unused (refl, refl)
      | inr used ↦ rw used (refl, refl)
    ]

-- The map may lose the entry; the tables stay.
pub prune-parts :
    (key : String) (e : ℕ) (p : Pool)
    → ((prune key e p).conns ≡ p.conns) × ((prune key e p).table ≡ p.table)
unfolding prune
prune-parts key e p = prune_entry-parts key e (get_elem? p.table e) p

generation-update_at :
    (g i e x : ℕ) (t : List Entry)
    → has_generation g (get_elem? (update_at x (forgotten i) t) e)
      ≡ has_generation g (get_elem? t e)
unfolding get_elem? update_at
generation-update_at g i e x [] = refl
generation-update_at g i zero zero (y ∷ t) = refl
generation-update_at g i zero (suc x) (y ∷ t) = refl
generation-update_at g i (suc e) zero (y ∷ t) = refl
generation-update_at g i (suc e) (suc x) (y ∷ t) = generation-update_at g i e x t

abbrev pub shut_at : How → Option Connection → Option Connection
shut_at how none = none
shut_at how (some c) = some (shut how c)

shut_self : (how : How) (c : Connection) → c.closed ≡ true → shut how c ≡ c
shut_self how c e = by_closed c.closed e
  where
    by_closed : (b : Bool) → b ≡ true → (if b then c else close_down how c) ≡ c
    by_closed true h = refl
    by_closed false h = cc

shut-now : (how : How) (c : Connection) → c.closed ≡ false → shut how c ≡ close_down how c
shut-now how c e = by_closed c.closed e
  where
    by_closed : (b : Bool) → b ≡ false → (if b then c else close_down how c) ≡ close_down how c
    by_closed true h = cc
    by_closed false h = refl

-- Nothing changes where there is nothing to shut.
at_rest :
    (how : How) (i j : ℕ) (cs : List Connection)
    → shut_at how (get_elem? cs i) ≡ get_elem? cs i
    → get_elem? cs j ≡ (if i == j then shut_at how (get_elem? cs j) else get_elem? cs j)
at_rest how i j cs rest = elim (Bool-cases (i == j)) [
  | inl same ↦
      let e : i ≡ j = ground arith in
      rw same (subst (λ k. get_elem? cs k ≡ shut_at how (get_elem? cs k)) e (sym rest))
  | inr other ↦ rw other refl
]

shut_connection-conns :
    (how : How) (i : ℕ) (m : Option Connection) (p : Pool) (j : ℕ)
    → get_elem? p.conns i ≡ m
    → get_elem? (shut_connection how i m p).conns j
      ≡ (if i == j then shut_at how (get_elem? p.conns j) else get_elem? p.conns j)
unfolding shut_connection
shut_connection-conns how i none p j here = at_rest how i j p.conns (rw here refl)
shut_connection-conns how i (some c) p j here = elim (Bool-cases c.closed) [
  | inl before ↦
      rw before (
        at_rest how i j p.conns
          (rw here (ap (λ (c : Connection). some c) (shut_self how c before))))
  | inr now ↦ rw now (
      ap (λ cs. get_elem? cs j) (prune-parts c.key c.entry _).0
      ∙ get_elem?-update_at i j (close_down how) p.conns here
      ∙ shut_here now)
]
  where
    shut_here :
        c.closed ≡ false
        → (if i == j then some (close_down how c) else get_elem? p.conns j)
          ≡ (if i == j then shut_at how (get_elem? p.conns j) else get_elem? p.conns j)
    shut_here now = elim (Bool-cases (i == j)) [
      | inl same ↦
          let e : i ≡ j = ground arith in
          let there : get_elem? p.conns j ≡ some c =
            subst (λ k. get_elem? p.conns k ≡ some c) e here in
          rw (same, there) (ap (λ (c : Connection). some c) (sym (shut-now how c now)))
      | inr other ↦ rw other refl
    ]

shut_connection-table :
    (how : How) (i : ℕ) (m : Option Connection) (p : Pool) (g e : ℕ)
    → has_generation g (get_elem? (shut_connection how i m p).table e)
      ≡ has_generation g (get_elem? p.table e)
unfolding shut_connection
shut_connection-table how i none p g e = refl
shut_connection-table how i (some c) p g e = elim (Bool-cases c.closed) [
  | inl before ↦ rw before refl
  | inr now ↦ rw now (
      ap (λ t. has_generation g (get_elem? t e)) (prune-parts c.key c.entry _).1
      ∙ generation-update_at g i e c.entry p.table)
]

-- The connection is shut, the others and the generations stay.
pub shut_down-parts :
    (how : How) (i : ℕ) (p : Pool) (j g e : ℕ)
    → (get_elem? (shut_down how i p).conns j
        ≡ (if i == j then shut_at how (get_elem? p.conns j) else get_elem? p.conns j))
      × (has_generation g (get_elem? (shut_down how i p).table e)
          ≡ has_generation g (get_elem? p.table e))
unfolding shut_down
shut_down-parts how i p j g e = (
  shut_connection-conns how i (get_elem? p.conns i) p j refl,
  shut_connection-table how i (get_elem? p.conns i) p g e,
)
