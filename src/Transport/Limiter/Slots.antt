-- ===== src/Transport/Limiter/Slots.antt =====
-- The slots of a limiter over all that its callers can do.
use open_mcc_manager.Prelude.{
  ℕ, zero, suc, ◌+◌, ◌-◌, ◌≤◌, ◌<◌, ◌≡◌, ◌⊎◌, ap, false, none, some, List, [], ◌∷◌, ◌++◌, arith,
  length, length-append,
}
use open_mcc_manager.Transport.Limiter.{
  Limiter, create_channel_limiter, granted, queued, acquire, abandon, release,
}

-- A limiter with those that hold a slot.
pub record World : Type 0 where
  pub holders : List ℕ
  pub limiter : Limiter

-- What the callers can do; a slot is given back by one that holds it.
pub data Step (limit : ℕ) (w w' : World) : Type 0 where
  take_slot :
      (id : ℕ)
      → acquire limit false id w.limiter ≡ (granted, w'.limiter)
      → w'.holders ≡ id ∷ w.holders
      → Step limit w w'
  queue_up :
      (id : ℕ)
      → acquire limit false id w.limiter ≡ (queued, w'.limiter)
      → w'.holders ≡ w.holders
      → Step limit w w'
  walk_off : (id : ℕ) → w' ≡ record w { limiter = abandon id w.limiter } → Step limit w w'
  hand_over :
      (before after : List ℕ) (id next : ℕ)
      → w.holders ≡ before ++ id ∷ after
      → release w.limiter ≡ (some next, w'.limiter)
      → w'.holders ≡ next ∷ before ++ after
      → Step limit w w'
  give_back :
      (before after : List ℕ) (id : ℕ)
      → w.holders ≡ before ++ id ∷ after
      → release w.limiter ≡ (none, w'.limiter)
      → w'.holders ≡ before ++ after
      → Step limit w w'

pub data Reach (limit : ℕ) : World → Type 0 where
  start : Reach limit (record { holders = []; limiter = create_channel_limiter })
  next : {w w' : World} → Reach limit w → Step limit w w' → Reach limit w'

-- The counter is the number of holders, no more than the limit; and nobody waits while a slot is
-- free.
pub record IsSound (limit : ℕ) (w : World) : Type 0 where
  pub counted : length w.holders ≡ w.limiter.active
  pub bounded : w.limiter.active ≤ limit
  pub no_idle : (w.limiter.waiting ≡ []) ⊎ (w.limiter.active ≡ limit)

length-split :
    (before after : List ℕ) (id : ℕ)
    → length (before ++ id ∷ after) ≡ suc (length (before ++ after))
length-split before after id = simp length-append (omega arith)

Step-IsSound :
    (limit : ℕ) (w w' : World) → 0 < limit → Step limit w w' → IsSound limit w → IsSound limit w'
unfolding acquire release abandon
Step-IsSound limit w w' pos (take_slot id e h) s = ground arith
Step-IsSound limit w w' pos (queue_up id e h) s = ground arith
Step-IsSound limit w w' pos (walk_off id e) s = ground arith
Step-IsSound limit w w' pos (hand_over before after id n split e h) s =
    ground (arith, ap length split, length-split before after id)
Step-IsSound limit w w' pos (give_back before after id split e h) s =
    ground (arith, ap length split, length-split before after id)

-- Whatever the callers do, in whatever order, with a limit of one channel at least: the counter is
-- the number of slots held, it never passes the limit, and no waiter waits while a slot is free.
pub Reach-IsSound : {limit : ℕ} {w : World} → 0 < limit → Reach limit w → IsSound limit w
Reach-IsSound pos start = ground arith
Reach-IsSound pos (next {w = w} {w' = w'} r st) = Step-IsSound _ w w' pos st (Reach-IsSound pos r)

-- Who is admitted by a number of releases in a row.
pub admitted_by : ℕ → Limiter → List ℕ × Limiter
admitted_by zero l = ([], l)
admitted_by (suc n) l =
    let (who, l') = release l in
    let (rest, last) = admitted_by n l' in
    elim who [ none ↦ (rest, last) | some w ↦ (w ∷ rest, last) ]

line_in_order :
    (n active : ℕ) (line : List ℕ)
    → 0 < active
    → n ≤ length line
    → let (who, l) = admitted_by n (record { active = active; waiting = line }) in
      (length who ≡ n) × (who ++ l.waiting ≡ line) × (l.active ≡ active)
unfolding admitted_by release
line_in_order zero active line p h = ground arith
line_in_order (suc n) active [] p h = absurd (omega arith)
line_in_order (suc n) active (w ∷ ws) p h =
    ground (arith, line_in_order n (active - 1 + 1) ws (omega arith) (omega arith))

-- Waiters are admitted in the order of their arrival, one by each release: `n` releases in a row
-- admit the first `n` of the line, the others keep their order, and no slot is lost.
pub admitted_in_order :
    (n : ℕ) (l : Limiter)
    → 0 < l.active
    → n ≤ length l.waiting
    → (length (admitted_by n l).0 ≡ n)
      × ((admitted_by n l).0 ++ (admitted_by n l).1.waiting ≡ l.waiting)
      × ((admitted_by n l).1.active ≡ l.active)
admitted_in_order n l p h = line_in_order n l.active l.waiting p h
