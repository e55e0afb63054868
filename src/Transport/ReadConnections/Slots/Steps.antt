-- ===== src/Transport/ReadConnections/Slots/Steps.antt =====
-- Every call keeps the account of the slots.
use open_mcc_manager.Prelude.{
  ℕ, suc, ◌≡◌, refl, ap, inl, inr, true, false, Option, none, some, List, [], ◌∷◌, arith, ◌==◌,
  length, get_elem?, update_at, times_in, count_if-update_at, Bool-cases, update_at-update_at,
}
use mathlib.Core.Path.{subst}
use open_mcc_manager.Transport.Limiter.{Limiter}
use open_mcc_manager.Transport.Limiter.Line.{times_in-abandon}
use open_mcc_manager.Transport.ReadConnections.{
  requested, opened, Answer, Op, Connection, ReadError, unlisted, rejected_with, finish_op,
  abandon_op, abandon, abandon_each, settle, open_stream, end_stream, run_admitted, call_run,
  call_first,
}
use open_mcc_manager.Transport.ReadConnections.Slots.{
  holds, IsFit, Fits, AreFit, IsThinner, IsSound, IsThinner-self, IsThinner-abandon,
  change-IsCounted, change-AreFit, release_slot-IsSound,
}

-- An operation that is changed and then finished.
finish_op-IsSound :
    (limit id : ℕ) (f : Op → Op) (c : Connection) (l : Limiter) {o : Op}
    → get_elem? c.ops id ≡ some o
    → IsSound limit c
    → IsThinner id c.limiter l
    → IsFit (unlisted (f o)) (times_in id l.waiting) (times_in id c.admitted)
    → IsSound limit (finish_op id o (record c { ops = update_at id f c.ops; limiter = l }))
unfolding finish_op
finish_op-IsSound limit id f c l {o} here s t new =
    rw (update_at-update_at id unlisted f c.ops) (elim (Bool-cases o.holds_slot) [
      | inl had ↦ rw had (
          release_slot-IsSound limit _
            (change-IsCounted limit 1 id g c l here s.count t (rw had refl)) fit)
      | inr free ↦ rw free (record {
        count = change-IsCounted limit 0 id g c l here s.count t (rw free refl);
        fits = fit;
      })
    ])
  where
    g : Op → Op
    g = λ a. unlisted (f a)

    fit : AreFit (record c { ops = update_at id g c.ops; limiter = l })
    fit = change-AreFit id g c l c.admitted here s.fits t (λ j e. refl) new

slot_at :
    (c : Connection) (id : ℕ) {o : Op}
    → AreFit c
    → get_elem? c.ops id ≡ some o
    → IsFit o (times_in id c.limiter.waiting) (times_in id c.admitted)
slot_at c id f here =
    subst (λ m. Fits m (times_in id c.limiter.waiting) (times_in id c.admitted)) here (f id)

abandon_op-IsSound :
    (limit id : ℕ) (e : ReadError) (c : Connection) (m : Option Op)
    → get_elem? c.ops id ≡ m
    → IsSound limit c
    → IsSound limit (abandon_op id e m c)
unfolding abandon_op
abandon_op-IsSound limit id e c none here s = s
abandon_op-IsSound limit id e c (some o) here s =
    finish_op-IsSound limit id (rejected_with e) c _ here s (IsThinner-abandon id c.limiter)
      (ground (arith, slot_at c id s.fits here, times_in-abandon id id c.limiter))

pub abandon-IsSound :
    (limit id : ℕ) (e : ReadError) (c : Connection)
    → IsSound limit c
    → IsSound limit (abandon id e c)
unfolding abandon
abandon-IsSound limit id e c s = abandon_op-IsSound limit id e c _ refl s

pub abandon_each-IsSound :
    (limit : ℕ) (ids : List ℕ) (e : ReadError) (c : Connection)
    → IsSound limit c
    → IsSound limit (abandon_each ids e c)
unfolding abandon_each
abandon_each-IsSound limit [] e c s = s
abandon_each-IsSound limit (id ∷ ids) e c s =
    abandon_each-IsSound limit ids e (abandon id e c) (abandon-IsSound limit id e c s)

pub settle-IsSound :
    (limit id : ℕ) (a : Answer) (c : Connection) {o : Op}
    → get_elem? c.ops id ≡ some o
    → o.state ≡ requested
    → IsSound limit c
    → IsSound limit (settle id a (some o) c)
unfolding settle
settle-IsSound limit id a c {o} here asked s = elim (Bool-cases o.settled) [
  | inl done ↦ rw done s
  | inr due ↦ rw due (
      finish_op-IsSound limit id _ c c.limiter here s (IsThinner-self id c.limiter)
        (ground (arith, slot_at c id s.fits here)))
]

pub end_stream-IsSound :
    (limit id : ℕ) (c : Connection) {o : Op}
    → get_elem? c.ops id ≡ some o
    → o.state ≡ opened
    → IsSound limit c
    → IsSound limit (end_stream id (some o) c)
unfolding end_stream
end_stream-IsSound limit id c {o} here done s =
    finish_op-IsSound limit id _ c c.limiter here s (IsThinner-self id c.limiter)
      (ground (arith, slot_at c id s.fits here))

pub open_stream-IsSound :
    (limit id : ℕ) (c : Connection) {o : Op}
    → get_elem? c.ops id ≡ some o
    → o.state ≡ requested
    → IsSound limit c
    → IsSound limit (open_stream id (some o) c)
unfolding open_stream
open_stream-IsSound limit id c {o} here asked s = elim (Bool-cases o.settled) [
  | inl done ↦ rw done s
  | inr due ↦ rw due (record {
    count =
        change-IsCounted limit 0 id _ c c.limiter here s.count (IsThinner-self id c.limiter)
          (omega arith);
    fits =
        change-AreFit id _ c c.limiter c.admitted here s.fits (IsThinner-self id c.limiter)
          (λ j e. refl) (ground (arith, slot_at c id s.fits here));
  })
]

module _ (limit id : ℕ) (ids : List ℕ) (c : Connection) (due : c.admitted ≡ id ∷ ids)
    (s : IsSound limit c) where
  due_others : (j : ℕ) → (id == j) ≡ false → times_in j ids ≡ times_in j c.admitted
  unfolding times_in
  due_others j other = ground (arith, ap (times_in j) due)

  due_here : suc (times_in id ids) ≡ times_in id c.admitted
  unfolding times_in
  due_here = ground (arith, ap (times_in id) due)

  passed_on :
      {o : Op}
      → get_elem? c.ops id ≡ some o
      → o.settled ≡ true
      → AreFit (record c { admitted = ids })
  passed_on {o} here done j = elim (Bool-cases (id == j)) [
    | inl same ↦
        let e : id ≡ j = ground arith in
        subst (λ i. Fits (get_elem? c.ops i) (times_in i c.limiter.waiting) (times_in i ids)) e
          (rw here (ground (arith, slot_at c id s.fits here, due_here)))
    | inr other ↦ rw (due_others j other) (s.fits j)
  ]

  -- The call that is due is made: a slot is taken, or given on.
  call_run-IsSound :
      (m : Option Op)
      → get_elem? c.ops id ≡ m
      → IsSound limit (call_run id m (record c { admitted = ids }))
  unfolding call_run
  call_run-IsSound none here =
      let none_due : Fits none (times_in id c.limiter.waiting) (times_in id c.admitted) =
        subst (λ m. Fits m (times_in id c.limiter.waiting) (times_in id c.admitted)) here
          (s.fits id) in
      absurd (omega (arith, none_due.1, due_here))
  call_run-IsSound (some o) here = elim (Bool-cases o.settled) [
    | inl done ↦ rw done (
        release_slot-IsSound limit _ (ground (arith, s.count, ap length due)) (passed_on here done))
    | inr waits ↦ rw waits (record {
      count = ground (
        arith,
        s.count,
        ap length due,
        slot_at c id s.fits here,
        due_here,
        count_if-update_at holds id (λ o. record o { holds_slot = true; state = requested }) c.ops
            here,
      );
      fits =
          change-AreFit id _ c c.limiter ids here s.fits (IsThinner-self id c.limiter) due_others
            (ground (arith, slot_at c id s.fits here, due_here));
    })
  ]

pub run_admitted-IsSound :
    (limit : ℕ) (c : Connection) → IsSound limit c → IsSound limit (run_admitted c)
unfolding run_admitted
run_admitted-IsSound limit c s = first_call c.admitted refl
  where
    first_call : (due : List ℕ) → c.admitted ≡ due → IsSound limit (call_first due c)
    first_call [] e = s
    first_call (id ∷ ids) e = call_run-IsSound limit id ids c e s _ refl
