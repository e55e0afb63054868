-- ===== src/Transport/ReadConnections/Slots/Done.antt =====
-- Operations that are done, and what a change of one operation leaves as it is.
use open_mcc_manager.Prelude.{
  ℕ, ◌≡◌, refl, sym, ◌∙◌, inl, inr, true, false, Option, none, some, arith, ◌==◌, get_elem?,
  update_at, get_elem?-update_at, update_at-update_at, Bool-cases,
}
use mathlib.Core.Path.{subst}
use open_mcc_manager.Transport.Limiter.{Limiter}
use open_mcc_manager.Transport.Limiter.Line.{nobody, first, release-IsReleased}
use open_mcc_manager.Transport.ReadConnections.{Op, Connection, unlisted, release_slot, finish_op}

-- An operation that was answered and stands in no set.
abbrev pub IsDone : Option Op → Type 0
IsDone none = Unit {0}
IsDone (some o) = (o.settled ≡ true) × (o.listed ≡ false)

-- What a step leaves as it is, and that what is done stays done.
pub record Keeps (c d : Connection) : Type 0 where
  pub same_closed : d.closed ≡ c.closed
  pub same_ended : d.ended_by ≡ c.ended_by
  pub still_done : (j : ℕ) → IsDone (get_elem? c.ops j) → IsDone (get_elem? d.ops j)

pub Keeps-trans : {c d e : Connection} → Keeps c d → Keeps d e → Keeps c e
Keeps-trans k l = record {
  same_closed = l.same_closed ∙ k.same_closed;
  same_ended = l.same_ended ∙ k.same_ended;
  still_done = λ j h. l.still_done j (k.still_done j h);
}

-- The operations are as they were.
pub same-Keeps :
    (c d : Connection) → d.closed ≡ c.closed → d.ended_by ≡ c.ended_by → d.ops ≡ c.ops → Keeps c d
same-Keeps c d closed ended ops = record {
  same_closed = closed;
  same_ended = ended;
  still_done = λ j h. rw ops h;
}

pub release_slot-Keeps : (c : Connection) → Keeps c (release_slot c)
unfolding release_slot
release_slot-Keeps c = elim (release-IsReleased c.limiter) [
  | nobody e r ↦ rw r (same-Keeps c _ refl refl refl)
  | first w ws e r ↦ rw r (same-Keeps c _ refl refl refl)
]

pub release_slot-ops : (c : Connection) → (release_slot c).ops ≡ c.ops
unfolding release_slot
release_slot-ops c = elim (release-IsReleased c.limiter) [
  | nobody e r ↦ rw r refl
  | first w ws e r ↦ rw r refl
]

-- One operation changes, and stays done if it was.
pub change-Keeps :
    (id : ℕ) (f : Op → Op) (c : Connection) (l : Limiter) {o : Op}
    → get_elem? c.ops id ≡ some o
    → (IsDone (some o) → IsDone (some (f o)))
    → Keeps c (record c { ops = update_at id f c.ops; limiter = l })
change-Keeps id f c l {o} here keeps = record {
  same_closed = refl;
  same_ended = refl;
  still_done = λ j h. elim (Bool-cases (id == j)) [
    | inl same ↦
        let e : id ≡ j = ground arith in
        let was : IsDone (some o) =
          subst IsDone here (subst (λ i. IsDone (get_elem? c.ops i)) (sym e) h) in
        let now : get_elem? (update_at id f c.ops) j ≡ some (f o) =
          ground (arith, get_elem?-update_at id j f c.ops here) in
        rw now (keeps was)
    | inr other ↦
        let now : get_elem? (update_at id f c.ops) j ≡ get_elem? c.ops j =
          ground (arith, get_elem?-update_at id j f c.ops here) in
        rw now h
  ];
}

pub finish_op-Keeps :
    (id : ℕ) (f : Op → Op) (c : Connection) (l : Limiter) {o : Op}
    → get_elem? c.ops id ≡ some o
    → (o.settled ≡ true → (f o).settled ≡ true)
    → Keeps c (finish_op id o (record c { ops = update_at id f c.ops; limiter = l }))
unfolding finish_op
finish_op-Keeps id f c l {o} here keeps =
    rw (update_at-update_at id unlisted f c.ops) (elim (Bool-cases o.holds_slot) [
      | inl had ↦ rw had (Keeps-trans changed (release_slot-Keeps _))
      | inr free ↦ rw free changed
    ])
  where
    changed : Keeps c (record c { ops = update_at id (λ a. unlisted (f a)) c.ops; limiter = l })
    changed = change-Keeps id (λ a. unlisted (f a)) c l here (λ h. (keeps h.0, refl))

pub finish_op-ops :
    (id : ℕ) (o : Op) (c : Connection) → (finish_op id o c).ops ≡ update_at id unlisted c.ops
unfolding finish_op
finish_op-ops id o c = elim (Bool-cases o.holds_slot) [
  | inl had ↦ rw had (release_slot-ops _)
  | inr free ↦ rw free refl
]
