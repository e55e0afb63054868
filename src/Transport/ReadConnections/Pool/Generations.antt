-- ===== src/Transport/ReadConnections/Pool/Generations.antt =====
-- No entry takes a generation again that was there before.
use open_mcc_manager.Prelude.{
  ℕ, zero, suc, ◌+◌, ◌≤◌, ◌≡◌, refl, ◌∙◌, sym, inl, inr, true, ◌&&◌, ◌||◌, Option, none, some,
  String, List, [], ◌∷◌, ◌++◌, ltb, count_if, get_elem?, update_at, arith, Bool-cases,
}
use open_mcc_manager.Transport.ReadConnections.{
  ConnectionIdentity, same_connection_identity, ConnectionState, How, end, destroy, Connection,
}
use open_mcc_manager.Transport.ReadConnections.Pool.{
  Entry, Pool, has_generation, find_entry, entry_found, entry_for, is_unused, is_at, prune,
  prune_entry, forgotten, uninstalled, shut_connection, shut_down, live_leases, installed_at,
  idle_after, after_last_lease, is_sent, expire_at, expire_lease, replace, install_in, install,
}

same_generation :
    (g e x : ℕ) (f : Entry → Entry) (t : List Entry)
    → ((y : Entry) → (f y).generation ≡ y.generation)
    → has_generation g (get_elem? (update_at x f t) e) ≡ has_generation g (get_elem? t e)
unfolding get_elem? update_at
same_generation g e x f [] same = refl
same_generation g zero zero f (y ∷ t) same = rw (same y) refl
same_generation g (suc e) zero f (y ∷ t) same = refl
same_generation g zero (suc x) f (y ∷ t) same = refl
same_generation g (suc e) (suc x) f (y ∷ t) same = same_generation g e x f t same

-- `q` comes after `p`: an entry whose generation in `q` is one that `p` had given out had it in `p`.
pub record IsLater (p q : Pool) : Type 0 where
  pub grows : p.generations ≤ q.generations
  pub no_older :
      (g e : ℕ)
      → g ≤ p.generations
      → has_generation g (get_elem? q.table e) ≡ true
      → has_generation g (get_elem? p.table e) ≡ true

pub IsLater-self : {p q : Pool} → q.table ≡ p.table → q.generations ≡ p.generations → IsLater p q
IsLater-self same_table same_count = record {
  grows = omega (arith, same_count);
  no_older = λ g e old h. rw⁻¹ same_table h;
}

pub IsLater-trans : {p q r : Pool} → IsLater p q → IsLater q r → IsLater p r
IsLater-trans a b = record {
  grows = omega (arith, a.grows, b.grows);
  no_older = λ g e old h. a.no_older g e old (b.no_older g e (omega (arith, old, a.grows)) h);
}

-- A change of the entries that leaves their generations alone.
pub kept-IsLater :
    {p q : Pool} (x : ℕ) (f : Entry → Entry)
    → ((y : Entry) → (f y).generation ≡ y.generation)
    → q.table ≡ update_at x f p.table
    → q.generations ≡ p.generations
    → IsLater p q
kept-IsLater {p} {q} x f same changed same_count = record {
  grows = omega (arith, same_count);
  no_older = λ g e old h. sym (same_generation g e x f p.table same) ∙ rw⁻¹ changed h;
}

prune_entry-IsLater :
    (key : String) (e : ℕ) (m : Option Entry) (p : Pool) → IsLater p (prune_entry key e m p)
unfolding prune_entry
prune_entry-IsLater key e none p = IsLater-self refl refl
prune_entry-IsLater key e (some entry) p =
    elim (Bool-cases (is_unused entry && is_at e (find_entry key p.entries))) [
      | inl unused ↦ rw unused (IsLater-self refl refl)
      | inr used ↦ rw used (IsLater-self refl refl)
    ]

pub prune-IsLater : (key : String) (e : ℕ) (p : Pool) → IsLater p (prune key e p)
unfolding prune
prune-IsLater key e p = prune_entry-IsLater key e (get_elem? p.table e) p

shut_connection-IsLater :
    (how : How) (i : ℕ) (m : Option Connection) (p : Pool) → IsLater p (shut_connection how i m p)
unfolding shut_connection
shut_connection-IsLater how i none p = IsLater-self refl refl
shut_connection-IsLater how i (some c) p = elim (Bool-cases c.closed) [
  | inl before ↦ rw before (IsLater-self refl refl)
  | inr now ↦ rw now (
      IsLater-trans (kept-IsLater c.entry (forgotten i) (λ y. refl) refl refl)
        (prune-IsLater c.key c.entry _))
]

pub shut_down-IsLater : (how : How) (i : ℕ) (p : Pool) → IsLater p (shut_down how i p)
unfolding shut_down
shut_down-IsLater how i p = shut_connection-IsLater how i (get_elem? p.conns i) p

idle_after-IsLater : (i : ℕ) (m : Option Connection) (p : Pool) → IsLater p (idle_after i m p)
unfolding idle_after
idle_after-IsLater i none p = IsLater-self refl refl
idle_after-IsLater i (some c) p = elim (Bool-cases (c.closed || ltb 0 (live_leases c))) [
  | inl busy ↦ rw busy (IsLater-self refl refl)
  | inr free ↦ rw free (elim (Bool-cases c.retired) [
    | inl old ↦ rw old (shut_down-IsLater destroy i p)
    | inr kept ↦ rw kept (elim (Bool-cases (installed_at i (get_elem? p.table c.entry))) [
      | inl there ↦ rw there (IsLater-self refl refl)
      | inr replaced ↦ rw replaced (shut_down-IsLater end i p)
    ])
  ])
]

pub after_last_lease-IsLater : (i : ℕ) (p : Pool) → IsLater p (after_last_lease i p)
unfolding after_last_lease
after_last_lease-IsLater i p = idle_after-IsLater i (get_elem? p.conns i) p

expire_at-IsLater :
    (i lease : ℕ) (m : Option Connection) (p : Pool) → IsLater p (expire_at i lease m p)
unfolding expire_at
expire_at-IsLater i lease none p = IsLater-self refl refl
expire_at-IsLater i lease (some c) p = elim (Bool-cases (ltb 0 (count_if (is_sent lease) c.ops))) [
  | inl sent ↦ rw sent (kept-IsLater c.entry (uninstalled i) (λ y. refl) refl refl)
  | inr unsent ↦ rw unsent (IsLater-self refl refl)
]

pub expire_lease-IsLater : (i lease : ℕ) (p : Pool) → IsLater p (expire_lease i lease p)
unfolding expire_lease
expire_lease-IsLater i lease p = expire_at-IsLater i lease (get_elem? p.conns i) p

replaced_at-IsLater :
    (m : Option Connection) (i : ℕ) (identity : ConnectionIdentity) (p : Pool)
    → get_elem? p.conns i ≡ m
    → IsLater p (replace (some i) identity p)
unfolding replace
replaced_at-IsLater none i identity p e = rw (e, replace) (IsLater-self refl refl)
replaced_at-IsLater (some c) i identity p e =
    rw (e, replace)
      (elim (Bool-cases (same_connection_identity c.identity identity)) [
        | inl same ↦ rw same (after_last_lease-IsLater i p)
        | inr other ↦ rw other (shut_down-IsLater destroy i p)
      ])

replace-IsLater :
    (m : Option ℕ) (identity : ConnectionIdentity) (p : Pool) → IsLater p (replace m identity p)
replace-IsLater none identity p = unfold replace in IsLater-self refl refl
replace-IsLater (some i) identity p = replaced_at-IsLater _ i identity p refl

install_in-IsLater :
    (key : String) (e : ℕ) (m : Option Entry) (identity : ConnectionIdentity)
    (transport : ConnectionState) (now : ℕ) (p : Pool)
    → IsLater p (install_in key e m identity transport now p).1
unfolding install_in
install_in-IsLater key e none identity transport now p = IsLater-self refl refl
install_in-IsLater key e (some entry) identity transport now p =
    IsLater-trans (kept-IsLater e _ (λ y. refl) refl refl)
      (replace-IsLater entry.installed identity _)

pub install-IsLater :
    (key : String) (e : ℕ) (identity : ConnectionIdentity) (transport : ConnectionState) (now : ℕ)
    (p : Pool)
    → IsLater p (install key e identity transport now p).1
unfolding install
install-IsLater key e identity transport now p =
    install_in-IsLater key e (get_elem? p.table e) identity transport now p

appended_older :
    (n g e : ℕ) (y : Entry) (t : List Entry)
    → g ≤ n
    → y.generation ≡ n + 1
    → has_generation g (get_elem? (t ++ y ∷ []) e) ≡ true
    → has_generation g (get_elem? t e) ≡ true
unfolding get_elem?
appended_older n g zero y [] old new h = absurd (ground (arith, old, new, h))
appended_older n g (suc e) y [] old new h = h
appended_older n g zero y (x ∷ t) old new h = h
appended_older n g (suc e) y (x ∷ t) old new h = appended_older n g e y t old new h

entry_found-IsLater : (m : Option ℕ) (key : String) (p : Pool) → IsLater p (entry_found m key p).1
unfolding entry_found
entry_found-IsLater none key p = record {
  grows = omega arith;
  no_older = λ g e old h. appended_older p.generations g e _ p.table old refl h;
}
entry_found-IsLater (some e) key p = IsLater-self refl refl

pub entry_for-IsLater : (key : String) (p : Pool) → IsLater p (entry_for key p).1
unfolding entry_for
entry_for-IsLater key p = entry_found-IsLater (find_entry key p.entries) key p
