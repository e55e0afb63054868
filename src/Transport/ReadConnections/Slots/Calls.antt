-- ===== src/Transport/ReadConnections/Slots/Calls.antt =====
-- The calls that give up several operations, and the start of a read, keep the account too.
use open_mcc_manager.Prelude.{
  ℕ, ◌+◌, ◌≡◌, refl, inl, inr, true, false, Option, none, some, List, [], ◌∷◌, ◌++◌, arith, ◌==◌,
  length, bit, get_elem?, times_in, times_in-append, Bool-cases, length-append,
  get_elem?-append_one, count_if-append_one, get_elem?-none, ◌||◌,
}
use mathlib.Core.Path.{subst}
use open_mcc_manager.Transport.Limiter.{Limiter}
use open_mcc_manager.Transport.Limiter.Line.{free, full, acquire-IsAcquired}
use open_mcc_manager.Transport.ReadConnections.{
  OpState, in_queue, requested, opened, Op, Lease, Connection, abandon, expire_op, expire_each,
  expire, when_admitted, read, give_up_lease, release_lease, close_down, new_op, How,
  connection_lost, queue_expired, deadline_passed,
}
use open_mcc_manager.Transport.ReadConnections.Slots.{
  holds, IsFit, Fits, AreFit, IsSound, Fits-moved,
}
use open_mcc_manager.Transport.ReadConnections.Slots.Steps.{abandon-IsSound, abandon_each-IsSound}

-- The other fields do not count.
pub same-IsSound :
    (limit : ℕ) (c d : Connection)
    → c.ops ≡ d.ops
    → c.limiter ≡ d.limiter
    → c.admitted ≡ d.admitted
    → IsSound limit c
    → IsSound limit d
same-IsSound limit c d ops limiter admitted s = record {
  count = ground (arith, s.count, ops, limiter, admitted);
  fits = λ j.
      subst (λ xs. Fits (get_elem? xs j) (times_in j d.limiter.waiting) (times_in j d.admitted)) ops
        (subst
          (λ (l : Limiter). Fits (get_elem? c.ops j) (times_in j l.waiting) (times_in j d.admitted))
          limiter
          (subst (λ xs. Fits (get_elem? c.ops j) (times_in j c.limiter.waiting) (times_in j xs))
            admitted (s.fits j)));
}

expire_op-IsSound :
    (limit id : ℕ) (c : Connection) (m : Option Op)
    → IsSound limit c
    → IsSound limit (expire_op id m c)
unfolding expire_op
expire_op-IsSound limit id c none s = s
expire_op-IsSound limit id c (some o) s = by_state o.state
  where
    asked : IsSound limit (abandon id deadline_passed (record c { retired = true }))
    asked = abandon-IsSound limit id deadline_passed _ (same-IsSound limit c _ refl refl refl s)

    by_state :
        (state : OpState) → IsSound limit (expire_op id (some (record o { state = state })) c)
    by_state in_queue = abandon-IsSound limit id queue_expired c s
    by_state requested = asked
    by_state opened = asked

expire_each-IsSound :
    (limit : ℕ) (ids : List ℕ) (c : Connection)
    → IsSound limit c
    → IsSound limit (expire_each ids c)
unfolding expire_each
expire_each-IsSound limit [] c s = s
expire_each-IsSound limit (id ∷ ids) c s =
    expire_each-IsSound limit ids _ (expire_op-IsSound limit id c (get_elem? c.ops id) s)

pub expire-IsSound :
    (limit lease : ℕ) (c : Connection) → IsSound limit c → IsSound limit (expire lease c)
unfolding expire
expire-IsSound limit lease c s =
    expire_each-IsSound limit _ _ (same-IsSound limit c _ refl refl refl s)

pub close_down-IsSound :
    (limit : ℕ) (how : How) (c : Connection) → IsSound limit c → IsSound limit (close_down how c)
unfolding close_down
close_down-IsSound limit how c s =
    same-IsSound limit _ _ refl refl refl
      (abandon_each-IsSound limit _ connection_lost _ (same-IsSound limit c _ refl refl refl s))

release_lease-IsSound :
    (limit id : ℕ) (m : Option Lease) (c : Connection)
    → IsSound limit c
    → IsSound limit (release_lease id m c)
unfolding release_lease
release_lease-IsSound limit id none c s = s
release_lease-IsSound limit id (some l) c s = elim (Bool-cases l.released) [
  | inl again ↦ rw again s
  | inr first ↦
      rw first
        (abandon_each-IsSound limit _ connection_lost _ (same-IsSound limit c _ refl refl refl s))
]

-- A new operation that waits once, in the line or for its call.
module _ (limit lease : ℕ) (c : Connection) (s : IsSound limit c) where
  abbrev id : ℕ
  id = length c.ops

  nowhere : (times_in id c.limiter.waiting ≡ 0) × (times_in id c.admitted ≡ 0)
  nowhere =
      subst (λ m. Fits m (times_in id c.limiter.waiting) (times_in id c.admitted))
        (get_elem?-none c.ops id (omega arith)) (s.fits id)

  added-AreFit :
      (l : Limiter) (due : List ℕ)
      → ((j : ℕ)
          → times_in j l.waiting + times_in j due
            ≡ times_in j c.limiter.waiting + times_in j c.admitted + bit (j == id))
      → ((j : ℕ) → (j == id) ≡ false → times_in j l.waiting ≡ times_in j c.limiter.waiting)
      → AreFit (record c { ops = c.ops ++ new_op lease ∷ []; limiter = l; admitted = due })
  added-AreFit l due once others j = elim (Bool-cases (j == id)) [
    | inl same ↦
        let e : id ≡ j = ground arith in
        let at_j : get_elem? (c.ops ++ new_op lease ∷ []) j ≡ some (new_op lease) =
          ground (arith, get_elem?-append_one c.ops (new_op lease) j) in
        rw at_j (
          subst (λ i. IsFit (new_op lease) (times_in i l.waiting) (times_in i due)) e
            (ground (arith, once id, nowhere)))
    | inr other ↦
        let at_j : get_elem? (c.ops ++ new_op lease ∷ []) j ≡ get_elem? c.ops j =
          ground (arith, get_elem?-append_one c.ops (new_op lease) j) in
        rw (at_j, others j other)
          (Fits-moved _ _ _ _ _ (s.fits j) (ground (arith, once j, others j other)) (omega arith))
  ]

  admitted-IsSound :
      IsSound limit (when_admitted limit id (record c { ops = c.ops ++ new_op lease ∷ [] }))
  unfolding when_admitted times_in
  admitted-IsSound = elim (acquire-IsAcquired limit id c.limiter) [
    | free below e ↦ rw e (record {
      count = ground (
        arith,
        s.count,
        count_if-append_one holds c.ops (new_op lease),
        length-append c.admitted (id ∷ []),
      );
      fits =
          added-AreFit (record { active = c.limiter.active + 1; waiting = c.limiter.waiting }) _
            (λ j. ground (arith, times_in-append j c.admitted (id ∷ []))) (λ j other. refl);
    })
    | full above e ↦ rw e (record {
      count = ground (arith, s.count, count_if-append_one holds c.ops (new_op lease));
      fits =
          added-AreFit
            (record { active = c.limiter.active; waiting = c.limiter.waiting ++ id ∷ [] }) _
            (λ j. ground (arith, times_in-append j c.limiter.waiting (id ∷ [])))
            (λ j other. ground (arith, times_in-append j c.limiter.waiting (id ∷ [])));
    })
  ]

  pub read-IsSound : (l : Lease) → IsSound limit (read limit lease l c)
  unfolding read
  read-IsSound l = elim (Bool-cases (l.released || c.closed)) [
    | inl gone ↦ rw gone s
    | inr here ↦ rw here (elim (Bool-cases l.expired) [
      | inl late ↦ rw late s
      | inr timely ↦ rw timely admitted-IsSound
    ])
  ]

pub give_up_lease-IsSound :
    (limit id : ℕ) (c : Connection) → IsSound limit c → IsSound limit (give_up_lease id c)
unfolding give_up_lease
give_up_lease-IsSound limit id c s = release_lease-IsSound limit id (get_elem? c.leases id) c s
