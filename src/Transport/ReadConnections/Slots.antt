-- ===== src/Transport/ReadConnections/Slots.antt =====
-- The slots of one connection: who waits, who is let in, and who holds one.
mod Steps
mod Calls
pub mod Reach
pub mod Done
pub mod Keeping
pub mod Closing
pub mod Leases
use open_mcc_manager.Prelude.{
  ℕ, zero, suc, ◌+◌, ◌-◌, ◌≤◌, ◌≡◌, refl, ap, ◌∙◌, ◌⊎◌, inl, inr, Bool, true, false, Option, none,
  some, List, [], ◌∷◌, ◌++◌, arith, ◌==◌, if◌then◌else◌, length, bit, get_elem?, update_at,
  times_in, times_in-append, get_elem?-update_at, count_if, count_if-update_at, Bool-cases,
  length-append,
}
use mathlib.Core.Path.{subst}
use open_mcc_manager.Transport.Limiter.{Limiter, release}
use open_mcc_manager.Transport.Limiter
use open_mcc_manager.Transport.Limiter.Line.{
  times_in-abandon, active-abandon, abandon-nil, IsReleased, nobody, first, release-IsReleased,
}
use open_mcc_manager.Transport.ReadConnections.{
  OpState, in_queue, opened, Stream, flowing, Answer, Op, Connection, unlisted, release_slot,
  finish_op, given_to,
}

abbrev pub holds : Op → Bool
holds o = o.holds_slot

abbrev pub is_asked : OpState → Bool
is_asked in_queue = false
is_asked _ = true

abbrev pub is_opened : OpState → Bool
is_opened opened = true
is_opened _ = false

abbrev pub flows : Stream → Bool
flows flowing = true
flows _ = false

abbrev pub answered : Option Answer → Bool
answered none = false
answered (some _) = true

-- An operation that stands `w` times in the line, and whose call is due `a` times.
pub record IsFit (o : Op) (w a : ℕ) : Type 0 where
  pub one_place : w + a + bit o.holds_slot ≤ 1
  pub not_forgotten : 1 ≤ w + a + bit o.holds_slot + bit o.settled
  pub leaves_line : w + bit o.settled ≤ 1
  pub kept_listed : 1 ≤ bit o.listed + bit o.settled
  pub slot_listed : bit o.holds_slot ≤ bit o.listed
  pub slot_used : bit o.holds_slot + bit o.settled ≤ 1 + bit (flows o.stream)
  pub slot_asked : bit (is_asked o.state) ≤ bit o.holds_slot + bit o.settled
  pub opened_settled : bit (is_opened o.state) ≤ bit o.settled
  pub told : bit o.settled ≡ bit (answered o.answer)

abbrev pub Fits : Option Op → ℕ → ℕ → Type 0
Fits none w a = (w ≡ 0) × (a ≡ 0)
Fits (some o) w a = IsFit o w a

-- `spare` slots are counted that nobody has.
pub record IsCounted (spare limit : ℕ) (c : Connection) : Type 0 where
  pub counted : count_if holds c.ops + length c.admitted + spare ≡ c.limiter.active
  pub bounded : c.limiter.active ≤ limit
  pub no_idle : (c.limiter.waiting ≡ []) ⊎ (c.limiter.active ≡ limit)

abbrev pub AreFit : Connection → Type 0
AreFit c = (j : ℕ) → Fits (get_elem? c.ops j) (times_in j c.limiter.waiting) (times_in j c.admitted)

-- `l'` is `l`, or `l` without the waiter `id`.
pub record IsThinner (id : ℕ) (l l' : Limiter) : Type 0 where
  pub same_active : l'.active ≡ l.active
  pub still_empty : l.waiting ≡ [] → l'.waiting ≡ []
  pub same_others : (j : ℕ) → (id == j) ≡ false → times_in j l'.waiting ≡ times_in j l.waiting

pub Fits-moved :
    (m : Option Op) (w a w' a' : ℕ) → Fits m w a → w' + a' ≡ w + a → w' ≤ w → Fits m w' a'
Fits-moved none w a w' a' f e h = ground arith
Fits-moved (some o) w a w' a' f e h = ground arith

release_slot-IsCounted :
    (limit : ℕ) (c : Connection) → IsCounted 1 limit c → IsCounted 0 limit (release_slot c)
unfolding release_slot
release_slot-IsCounted limit c k = elim (release-IsReleased c.limiter) [
  | nobody e r ↦ rw r (ground (arith, k))
  | first w ws e r ↦ rw r (ground (arith, k, length-append c.admitted (w ∷ [])))
]

release_slot-AreFit : (c : Connection) → AreFit c → AreFit (release_slot c)
unfolding release_slot times_in
release_slot-AreFit c f j = elim (release-IsReleased c.limiter) [
  | nobody e r ↦ rw r (Fits-moved _ _ _ _ _ (f j) (rw e refl) (rw e (omega arith)))
  | first w ws e r ↦ rw r (
      Fits-moved _ _ _ _ _ (f j)
        (ground (arith, ap (times_in j) e, times_in-append j c.admitted (w ∷ [])))
        (ground (arith, ap (times_in j) e)))
]

pub record IsSound (limit : ℕ) (c : Connection) : Type 0 where
  pub count : IsCounted 0 limit c
  pub fits : AreFit c

pub IsThinner-self : (id : ℕ) (l : Limiter) → IsThinner id l l
IsThinner-self id l = record { same_active = refl; still_empty = λ e. e; same_others = λ j e. refl }

pub IsThinner-abandon : (id : ℕ) (l : Limiter) → IsThinner id l (Limiter.abandon id l)
IsThinner-abandon id l = record {
  same_active = active-abandon id l;
  still_empty = abandon-nil id l;
  same_others = λ j e. ground (arith, times_in-abandon id j l);
}

-- One operation changes, and may leave the line.
pub change-IsCounted :
    (limit spare id : ℕ) (f : Op → Op) (c : Connection) (l : Limiter) {o : Op}
    → get_elem? c.ops id ≡ some o
    → IsCounted 0 limit c
    → IsThinner id c.limiter l
    → bit (f o).holds_slot + spare ≡ bit o.holds_slot
    → IsCounted spare limit (record c { ops = update_at id f c.ops; limiter = l })
change-IsCounted limit spare id f c l here k t e = record {
  counted = omega (arith, k.counted, t.same_active, count_if-update_at holds id f c.ops here);
  bounded = omega (arith, k.bounded, t.same_active);
  no_idle = elim k.no_idle [
    | inl empty ↦ inl (t.still_empty empty)
    | inr full ↦ inr (t.same_active ∙ full)
  ];
}

pub change-AreFit :
    (id : ℕ) (f : Op → Op) (c : Connection) (l : Limiter) (due : List ℕ) {o : Op}
    → get_elem? c.ops id ≡ some o
    → AreFit c
    → IsThinner id c.limiter l
    → ((j : ℕ) → (id == j) ≡ false → times_in j due ≡ times_in j c.admitted)
    → IsFit (f o) (times_in id l.waiting) (times_in id due)
    → AreFit (record c { ops = update_at id f c.ops; limiter = l; admitted = due })
change-AreFit id f c l due {o} here k t same_due new j = elim (Bool-cases (id == j)) [
  | inl same ↦
      let e : id ≡ j = ground arith in
      let at_j : get_elem? (update_at id f c.ops) j ≡ some (f o) =
        ground (arith, get_elem?-update_at id j f c.ops here) in
      rw at_j (subst (λ i. IsFit (f o) (times_in i l.waiting) (times_in i due)) e new)
  | inr other ↦
      let at_j : get_elem? (update_at id f c.ops) j ≡ get_elem? c.ops j =
        ground (arith, get_elem?-update_at id j f c.ops here) in
      rw (at_j, t.same_others j other, same_due j other) (k j)
]

pub release_slot-IsSound :
    (limit : ℕ) (c : Connection) → IsCounted 1 limit c → AreFit c → IsSound limit (release_slot c)
release_slot-IsSound limit c k f = record {
  count = release_slot-IsCounted limit c k;
  fits = release_slot-AreFit c f;
}
