-- ===== src/Transport/ReadConnections/Slots/Keeping.antt =====
-- What each call leaves as it is: what is done stays done.
use open_mcc_manager.Prelude.{
  ℕ, ◌≡◌, refl, inl, inr, true, Option, none, some, List, [], ◌∷◌, get_elem?, Bool-cases,
}
use open_mcc_manager.Transport.ReadConnections.{
  OpState, in_queue, requested, opened, Answer, Op, Lease, Connection, ReadError, rejected_with,
  abandon_op, abandon, abandon_each, settle, open_stream, end_stream, expire_op, expire_each,
  run_admitted, call_run, call_first, give_up_lease, release_lease, connection_lost, queue_expired,
  deadline_passed,
}
use open_mcc_manager.Transport.ReadConnections.Slots.Done.{
  Keeps, Keeps-trans, same-Keeps, release_slot-Keeps, change-Keeps, finish_op-Keeps,
}
use open_mcc_manager.Transport.ReadConnections.Slots.Reach.{}

abandon_op-Keeps :
    (id : ℕ) (e : ReadError) (m : Option Op) (c : Connection)
    → get_elem? c.ops id ≡ m
    → Keeps c (abandon_op id e m c)
unfolding abandon_op
abandon_op-Keeps id e none c here = same-Keeps c c refl refl refl
abandon_op-Keeps id e (some o) c here = finish_op-Keeps id (rejected_with e) c _ here (λ h. refl)

pub abandon-Keeps : (id : ℕ) (e : ReadError) (c : Connection) → Keeps c (abandon id e c)
unfolding abandon
abandon-Keeps id e c = abandon_op-Keeps id e _ c refl

pub abandon_each-Keeps :
    (ids : List ℕ) (e : ReadError) (c : Connection) → Keeps c (abandon_each ids e c)
unfolding abandon_each
abandon_each-Keeps [] e c = same-Keeps c c refl refl refl
abandon_each-Keeps (id ∷ ids) e c =
    Keeps-trans (abandon-Keeps id e c) (abandon_each-Keeps ids e (abandon id e c))

expire_op-Keeps : (id : ℕ) (m : Option Op) (c : Connection) → Keeps c (expire_op id m c)
unfolding expire_op
expire_op-Keeps id none c = same-Keeps c c refl refl refl
expire_op-Keeps id (some o) c = by_state o.state
  where
    asked : Keeps c (abandon id deadline_passed (record c { retired = true }))
    asked = Keeps-trans (same-Keeps c _ refl refl refl) (abandon-Keeps id deadline_passed _)

    by_state : (state : OpState) → Keeps c (expire_op id (some (record o { state = state })) c)
    by_state in_queue = abandon-Keeps id queue_expired c
    by_state requested = asked
    by_state opened = asked

pub expire_each-Keeps : (ids : List ℕ) (c : Connection) → Keeps c (expire_each ids c)
unfolding expire_each
expire_each-Keeps [] c = same-Keeps c c refl refl refl
expire_each-Keeps (id ∷ ids) c =
    Keeps-trans (expire_op-Keeps id (get_elem? c.ops id) c) (expire_each-Keeps ids _)

release_lease-Keeps : (id : ℕ) (m : Option Lease) (c : Connection) → Keeps c (release_lease id m c)
unfolding release_lease
release_lease-Keeps id none c = same-Keeps c c refl refl refl
release_lease-Keeps id (some l) c = elim (Bool-cases l.released) [
  | inl again ↦ rw again (same-Keeps c c refl refl refl)
  | inr first ↦
      rw first
        (Keeps-trans (same-Keeps c _ refl refl refl) (abandon_each-Keeps _ connection_lost _))
]

pub settle-Keeps :
    (id : ℕ) (a : Answer) (c : Connection) {o : Op}
    → get_elem? c.ops id ≡ some o
    → Keeps c (settle id a (some o) c)
unfolding settle
settle-Keeps id a c {o} here = elim (Bool-cases o.settled) [
  | inl done ↦ rw done (same-Keeps c c refl refl refl)
  | inr due ↦ rw due (finish_op-Keeps id _ c c.limiter here (λ h. refl))
]

pub open_stream-Keeps :
    (id : ℕ) (c : Connection) {o : Op}
    → get_elem? c.ops id ≡ some o
    → Keeps c (open_stream id (some o) c)
unfolding open_stream
open_stream-Keeps id c {o} here = elim (Bool-cases o.settled) [
  | inl done ↦ rw done (same-Keeps c c refl refl refl)
  | inr due ↦ rw due (change-Keeps id _ c c.limiter here (λ h. cc))
]

pub end_stream-Keeps :
    (id : ℕ) (c : Connection) {o : Op}
    → get_elem? c.ops id ≡ some o
    → Keeps c (end_stream id (some o) c)
unfolding end_stream
end_stream-Keeps id c here = finish_op-Keeps id _ c c.limiter here (λ h. h)

call_run-Keeps :
    (id : ℕ) (m : Option Op) (c : Connection) → get_elem? c.ops id ≡ m → Keeps c (call_run id m c)
unfolding call_run
call_run-Keeps id none c here = same-Keeps c c refl refl refl
call_run-Keeps id (some o) c here = elim (Bool-cases o.settled) [
  | inl done ↦ rw done (release_slot-Keeps c)
  | inr due ↦ rw due (change-Keeps id _ c c.limiter here (λ h. cc))
]

pub run_admitted-Keeps : (c : Connection) → Keeps c (run_admitted c)
unfolding run_admitted
run_admitted-Keeps c = first_call c.admitted
  where
    first_call : (due : List ℕ) → Keeps c (call_first due c)
    first_call [] = same-Keeps c c refl refl refl
    first_call (id ∷ ids) =
        Keeps-trans (same-Keeps c _ refl refl refl)
          (call_run-Keeps id _ (record c { admitted = ids }) refl)

pub give_up_lease-Keeps : (id : ℕ) (c : Connection) → Keeps c (give_up_lease id c)
unfolding give_up_lease
give_up_lease-Keeps id c = release_lease-Keeps id (get_elem? c.leases id) c
