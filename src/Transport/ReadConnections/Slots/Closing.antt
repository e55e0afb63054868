-- ===== src/Transport/ReadConnections/Slots/Closing.antt =====
-- What a closed connection leaves behind: every read has its answer, and nobody holds a slot.
use open_mcc_manager.Prelude.{
  ℕ, zero, suc, ◌+◌, ◌≤◌, ◌≡◌, refl, ap, sym, ◌∙◌, ◌⊎◌, inl, inr, Bool, true, false, Option, none,
  some, List, [], ◌∷◌, ◌++◌, arith, ◌==◌, if◌then◌else◌, ◌||◌, length, bit, get_elem?, update_at,
  times_in, get_elem?-update_at, update_at-update_at, Bool-cases, length-append, count_if-zero,
  times_in-nil,
}
use mathlib.Core.Path.{subst}
use open_mcc_manager.Transport.Limiter
use open_mcc_manager.Transport.Limiter.Line.{free, full, acquire-IsAcquired}
use open_mcc_manager.Transport.ReadConnections.{
  Op, Lease, Connection, ReadError, How, unlisted, rejected_with, abandon_op, abandon, abandon_each,
  expire, read, when_admitted, new_op, ops_of, places, close_down, add_lease, retire,
  connection_lost,
}
use open_mcc_manager.Transport.ReadConnections.Slots.{holds, answered, Fits, IsSound}
use open_mcc_manager.Transport.ReadConnections.Slots.Done.{
  IsDone, Keeps, Keeps-trans, same-Keeps, finish_op-ops,
}
use open_mcc_manager.Transport.ReadConnections.Slots.Reach.{
  Step, reads, admits, answers, streams, ends, expires, lets_go, is_leased, retires, shuts, turns,
  Lives, installed, later, Lives-IsSound,
}
use open_mcc_manager.Transport.ReadConnections.Slots.Keeping.{
  abandon_each-Keeps, expire_each-Keeps, give_up_lease-Keeps, settle-Keeps, open_stream-Keeps,
  end_stream-Keeps, run_admitted-Keeps,
}

abandon_op-at :
    (id : ℕ) (e : ReadError) (m : Option Op) (c : Connection) (j : ℕ)
    → get_elem? c.ops id ≡ m
    → let after = get_elem? (abandon_op id e m c).ops j in
      ((id == j) ≡ true → IsDone after) × ((id == j) ≡ false → after ≡ get_elem? c.ops j)
unfolding abandon_op
abandon_op-at id e none c j here = (
  λ same. let e : id ≡ j = ground arith in subst (λ i. IsDone (get_elem? c.ops i)) e (rw here tt),
  λ other. refl,
)
abandon_op-at id e (some o) c j here =
    rw
      (
        finish_op-ops id o (record c {
          ops = update_at id (rejected_with e) c.ops;
          limiter = Limiter.abandon id c.limiter;
        }),
        update_at-update_at id unlisted (rejected_with e) c.ops,
      )
      (λ same. rw (at_j, same) (refl, refl), λ other. rw (at_j, other) refl)
  where
    at_j :
        get_elem? (update_at id (λ a. unlisted (rejected_with e a)) c.ops) j
        ≡ (if id == j then some (unlisted (rejected_with e o)) else get_elem? c.ops j)
    at_j = get_elem?-update_at id j _ c.ops here

-- Each operation of the list is done, the others are as they were.
abandon_each-at :
    (ids : List ℕ) (e : ReadError) (c : Connection) (j : ℕ)
    → IsDone (get_elem? (abandon_each ids e c).ops j)
      ⊎ ((get_elem? (abandon_each ids e c).ops j ≡ get_elem? c.ops j) × (times_in j ids ≡ 0))
unfolding abandon_each times_in
abandon_each-at [] e c j = inr (refl, refl)
abandon_each-at (id ∷ ids) e c j = elim (Bool-cases (id == j)) [
  | inl same ↦ inl ((abandon_each-Keeps ids e (abandon id e c)).still_done j (step.0 same))
  | inr other ↦ elim (abandon_each-at ids e (abandon id e c) j) [
    | inl done ↦ inl done
    | inr (as_was, absent) ↦ inr (as_was ∙ step.1 other, ground arith)
  ]
]
  where
    step :
        let after = get_elem? (abandon id e c).ops j in
        ((id == j) ≡ true → IsDone after) × ((id == j) ≡ false → after ≡ get_elem? c.ops j)
    step = unfold abandon in abandon_op-at id e _ c j refl

places-at :
    (test : Op → Bool) (i j : ℕ) (os : List Op) (o : Op)
    → get_elem? os j ≡ some o
    → test o ≡ true
    → 1 ≤ times_in (i + j) (places test i os)
unfolding places get_elem? times_in
places-at test i j [] o here h = cc
places-at test i zero (x ∷ os) o here h = ground arith
places-at test i (suc j) (x ∷ os) o here h = ground (
  arith,
  places-at test (i + 1) j os o here h,
  ap (λ k. times_in k (places test (i + 1) os)) shifted,
)
  where
    shifted : i + 1 + j ≡ i + suc j
    shifted = omega arith

-- A connection that is closed ended its transport once, and left no operation undone.
pub record IsShut (c : Connection) : Type 0 where
  pub once : length c.ended_by ≡ bit c.closed
  pub over : c.closed ≡ true → (j : ℕ) → IsDone (get_elem? c.ops j)

Keeps-IsShut : {c d : Connection} → Keeps c d → IsShut c → IsShut d
Keeps-IsShut k s = record {
  once = ap length k.same_ended ∙ s.once ∙ ap bit (sym k.same_closed);
  over = λ closed j. k.still_done j (s.over (sym k.same_closed ∙ closed) j);
}

close_down-IsShut :
    (limit : ℕ) (how : How) (c : Connection)
    → IsSound limit c
    → IsShut c
    → c.closed ≡ false
    → IsShut (close_down how c)
unfolding close_down
close_down-IsShut limit how c s shut is_open = record {
  once = ground (
    arith,
    length-append c'.ended_by (how ∷ []),
    ap length kept.same_ended,
    kept.same_closed,
    shut.once,
  );
  over = λ _ j. elim (abandon_each-at ids connection_lost start j) [
    | inl done ↦ done
    | inr (as_was, absent) ↦ rw as_was (unlisted_done j (get_elem? c.ops j) refl absent)
  ];
}
  where
    start : Connection
    start = record c { closed = true; idle_timer = false; hard_timer = false }

    ids : List ℕ
    ids = ops_of start

    c' : Connection
    c' = abandon_each ids connection_lost start

    kept : Keeps start c'
    kept = abandon_each-Keeps ids connection_lost start

    unlisted_done : (j : ℕ) (m : Option Op) → get_elem? c.ops j ≡ m → times_in j ids ≡ 0 → IsDone m
    unlisted_done j none here absent = tt
    unlisted_done j (some o) here absent = ground (
      arith,
      places-at (λ o. o.listed) 0 j c.ops o here,
      subst (λ m. Fits m (times_in j c.limiter.waiting) (times_in j c.admitted)) here (s.fits j),
    )

admit_begun-same :
    (limit lease : ℕ) (c : Connection)
    → let d = when_admitted limit (length c.ops) (record c { ops = c.ops ++ new_op lease ∷ [] }) in
      (d.closed ≡ c.closed) × (d.ended_by ≡ c.ended_by)
unfolding when_admitted
admit_begun-same limit lease c = elim (acquire-IsAcquired limit (length c.ops) c.limiter) [
  | free below e ↦ rw e (refl, refl)
  | full above e ↦ rw e (refl, refl)
]

read-IsShut :
    (limit lease : ℕ) (l : Lease) (c : Connection) → IsShut c → IsShut (read limit lease l c)
unfolding read
read-IsShut limit lease l c s = elim (Bool-cases (l.released || c.closed)) [
  | inl gone ↦ rw gone s
  | inr here ↦ rw here (elim (Bool-cases l.expired) [
    | inl late ↦ rw late s
    | inr timely ↦ rw timely (
        let same = admit_begun-same limit lease c in
        record {
          once = ap length same.1 ∙ s.once ∙ ap bit (sym same.0);
          over = λ closed j. absurd (ground (arith, same, here));
        })
  ])
]

Step-IsShut :
    (limit : ℕ) {c d : Connection} → Step limit c d → IsSound limit c → IsShut c → IsShut d
unfolding add_lease retire expire
Step-IsShut limit {c} (reads lease l e) s h = read-IsShut limit lease l c h
Step-IsShut limit {c} admits s h = Keeps-IsShut (run_admitted-Keeps c) h
Step-IsShut limit {c} (answers id a o here asked) s h = Keeps-IsShut (settle-Keeps id a c here) h
Step-IsShut limit {c} (streams id o here asked) s h = Keeps-IsShut (open_stream-Keeps id c here) h
Step-IsShut limit {c} (ends id o here opened_yet) s h = Keeps-IsShut (end_stream-Keeps id c here) h
Step-IsShut limit {c} (expires lease) s h =
    Keeps-IsShut (Keeps-trans (same-Keeps c _ refl refl refl) (expire_each-Keeps _ _)) h
Step-IsShut limit {c} (lets_go lease) s h = Keeps-IsShut (give_up_lease-Keeps lease c) h
Step-IsShut limit {c} (is_leased e) s h = Keeps-IsShut (same-Keeps c _ refl refl refl) h
Step-IsShut limit {c} retires s h = Keeps-IsShut (same-Keeps c _ refl refl refl) h
Step-IsShut limit {c} (shuts how e) s h = close_down-IsShut limit how c s h e
Step-IsShut limit {c} (turns state) s h = Keeps-IsShut (same-Keeps c _ refl refl refl) h

Lives-IsShut : {limit : ℕ} {c : Connection} → Lives limit c → IsShut c
Lives-IsShut (installed n) = record {
  once = ground (arith, n);
  over = λ closed j. absurd (ground (arith, n));
}
Lives-IsShut (later r st) = Step-IsShut _ st (Lives-IsSound r) (Lives-IsShut r)

-- Once a connection is closed, whatever happened before and after: its transport was ended exactly
-- once, each of its reads was answered and holds no slot, nobody is left in the line, and the slots
-- still counted are the grants whose call is due.
pub closed_settles :
    {limit : ℕ} {c : Connection}
    → Lives limit c
    → c.closed ≡ true
    → (length c.ended_by ≡ 1)
      × ((j : ℕ) (o : Op)
          → get_elem? c.ops j ≡ some o
          → (o.settled ≡ true) × (o.holds_slot ≡ false) × (answered o.answer ≡ true))
      × (c.limiter.waiting ≡ [])
      × (c.limiter.active ≡ length c.admitted)
closed_settles {limit} {c} r closed = (
  shut.once ∙ ap bit closed,
  free_op,
  times_in-nil c.limiter.waiting (λ j. line_free j _ refl),
  ground (arith, sound.count.counted, count_if-zero holds c.ops (λ j o here. (free_op j o here).1)),
)
  where
    shut : IsShut c
    shut = Lives-IsShut r

    sound : IsSound limit c
    sound = Lives-IsSound r

    fit :
        (j : ℕ) (m : Option Op)
        → get_elem? c.ops j ≡ m
        → Fits m (times_in j c.limiter.waiting) (times_in j c.admitted)
    fit j m here =
        subst (λ m. Fits m (times_in j c.limiter.waiting) (times_in j c.admitted)) here
          (sound.fits j)

    done : (j : ℕ) (m : Option Op) → get_elem? c.ops j ≡ m → IsDone m
    done j m here = subst IsDone here (shut.over closed j)

    free_op :
        (j : ℕ) (o : Op)
        → get_elem? c.ops j ≡ some o
        → (o.settled ≡ true) × (o.holds_slot ≡ false) × (answered o.answer ≡ true)
    free_op j o here = ground (arith, fit j (some o) here, done j (some o) here)

    line_free : (j : ℕ) (m : Option Op) → get_elem? c.ops j ≡ m → times_in j c.limiter.waiting ≡ 0
    line_free j none here = ground (arith, fit j none here)
    line_free j (some o) here = ground (arith, fit j (some o) here, done j (some o) here)
