-- ===== src/Transport/ReadConnections/Slots/Leases.antt =====
-- The leases of a connection that were not given back yet, under the calls on it.
use open_mcc_manager.Prelude.{
  ℕ, zero, suc, ◌+◌, ◌≡◌, refl, ap, ◌∙◌, inl, inr, Bool, true, false, not, Option, none, some, List,
  [], ◌∷◌, get_elem?, update_at, arith, Bool-cases, count_if, count_if-append_one,
  count_if-update_at,
}
use open_mcc_manager.Transport.Limiter.Line.{nobody, first, release-IsReleased}
use open_mcc_manager.Transport.ReadConnections.{
  OpState, in_queue, requested, opened, Op, Lease, Connection, ReadError, How, release_slot,
  finish_op, abandon_op, abandon, abandon_each, expire_op, expire_each, expire, close_down,
  give_up_lease, release_lease, add_lease, connection_lost, queue_expired, deadline_passed,
}
use open_mcc_manager.Transport.ReadConnections.Pool.{live_leases}

release_slot-leases : (c : Connection) → (release_slot c).leases ≡ c.leases
unfolding release_slot
release_slot-leases c = elim (release-IsReleased c.limiter) [
  | nobody e r ↦ rw r refl
  | first w ws e r ↦ rw r refl
]

finish_op-leases : (id : ℕ) (o : Op) (c : Connection) → (finish_op id o c).leases ≡ c.leases
unfolding finish_op
finish_op-leases id o c = elim (Bool-cases o.holds_slot) [
  | inl had ↦ rw had (release_slot-leases _)
  | inr never ↦ rw never refl
]

abandon_op-leases :
    (id : ℕ) (e : ReadError) (m : Option Op) (c : Connection)
    → (abandon_op id e m c).leases ≡ c.leases
unfolding abandon_op
abandon_op-leases id e none c = refl
abandon_op-leases id e (some o) c = finish_op-leases id o _

abandon-leases : (id : ℕ) (e : ReadError) (c : Connection) → (abandon id e c).leases ≡ c.leases
unfolding abandon
abandon-leases id e c = abandon_op-leases id e (get_elem? c.ops id) c

abandon_each-leases :
    (ids : List ℕ) (e : ReadError) (c : Connection) → (abandon_each ids e c).leases ≡ c.leases
unfolding abandon_each
abandon_each-leases [] e c = refl
abandon_each-leases (id ∷ ids) e c = abandon_each-leases ids e _ ∙ abandon-leases id e c

expire_op-leases : (id : ℕ) (m : Option Op) (c : Connection) → (expire_op id m c).leases ≡ c.leases
unfolding expire_op
expire_op-leases id none c = refl
expire_op-leases id (some o) c = by_state o.state
  where
    by_state :
        (state : OpState) → (expire_op id (some (record o { state = state })) c).leases ≡ c.leases
    by_state in_queue = abandon-leases id queue_expired c
    by_state requested = abandon-leases id deadline_passed _
    by_state opened = abandon-leases id deadline_passed _

expire_each-leases : (ids : List ℕ) (c : Connection) → (expire_each ids c).leases ≡ c.leases
unfolding expire_each
expire_each-leases [] c = refl
expire_each-leases (id ∷ ids) c =
    expire_each-leases ids _ ∙ expire_op-leases id (get_elem? c.ops id) c

abbrev live : Lease → Bool
live l = not l.released

count_live-update_at :
    (id : ℕ) (f : Lease → Lease) (ls : List Lease)
    → ((l : Lease) → (f l).released ≡ l.released)
    → count_if live (update_at id f ls) ≡ count_if live ls
unfolding count_if update_at
count_live-update_at id f [] same = refl
count_live-update_at zero f (l ∷ ls) same = rw (same l) refl
count_live-update_at (suc id) f (l ∷ ls) same = rw (count_live-update_at id f ls same) refl

-- Shutting a connection and the deadline of a lease give no lease back.
pub live_leases-close_down :
    (how : How) (c : Connection) → live_leases (close_down how c) ≡ live_leases c
unfolding live_leases close_down
live_leases-close_down how c = ap (count_if live) (abandon_each-leases _ connection_lost _)

pub live_leases-expire : (id : ℕ) (c : Connection) → live_leases (expire id c) ≡ live_leases c
unfolding live_leases expire
live_leases-expire id c =
    ap (count_if live) (expire_each-leases _ _) ∙ count_live-update_at id _ c.leases (λ l. refl)

pub live_leases-add_lease : (c : Connection) → live_leases (add_lease c) ≡ live_leases c + 1
unfolding live_leases add_lease
live_leases-add_lease c = count_if-append_one live c.leases _

release_lease-live :
    (id : ℕ) (c : Connection) {l : Lease}
    → get_elem? c.leases id ≡ some l
    → l.released ≡ false
    → live_leases (release_lease id (some l) c) + 1 ≡ live_leases c
unfolding live_leases release_lease
release_lease-live id c {l} here out = rw out (
    ap (λ ls. count_if live ls + 1) (abandon_each-leases _ connection_lost _)
    ∙ ground (
      arith,
      count_if-update_at live id (λ l. record l { released = true; timer = false }) c.leases here,
    ))

-- Giving a lease back for the first time takes one off.
pub live_leases-give_up_lease :
    (id : ℕ) (c : Connection) {l : Lease}
    → get_elem? c.leases id ≡ some l
    → l.released ≡ false
    → live_leases (give_up_lease id c) + 1 ≡ live_leases c
unfolding give_up_lease
live_leases-give_up_lease id c here out = rw here (release_lease-live id c here out)
