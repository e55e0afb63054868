-- ===== src/Transport/Tests.antt =====
-- A limiter of two channels with three callers (packages/transport/src/ssh/limiter.ts).
use open_mcc_manager.Prelude.{ℕ, ◌≡◌, refl, arith, List, [], ◌∷◌, ◌++◌, length}
use open_mcc_manager.Transport.Limiter.{Limiter, acquire, release}
use open_mcc_manager.Transport.Limiter.Slots.{
  World, take_slot, queue_up, hand_over, Reach, start, next, IsSound, Reach-IsSound, admitted_by,
  admitted_in_order,
}

abbrev world : List ℕ → ℕ → List ℕ → World
world holders active waiting = record {
  holders = holders;
  limiter = record { active = active; waiting = waiting };
}

-- Two take a slot, a third waits, and the second hands its slot over.
handed_over : Reach 2 (world (3 ∷ 1 ∷ []) 2 [])
unfolding acquire release
handed_over =
    let one : Reach 2 (world (1 ∷ []) 1 []) = next start (take_slot 1 refl refl) in
    let two : Reach 2 (world (2 ∷ 1 ∷ []) 2 []) = next one (take_slot 2 refl refl) in
    let full : Reach 2 (world (2 ∷ 1 ∷ []) 2 (3 ∷ [])) = next two (queue_up 3 refl refl) in
    next full (hand_over [] (1 ∷ []) 2 3 refl refl refl)

reached : IsSound 2 (world (3 ∷ 1 ∷ []) 2 [])
reached = Reach-IsSound (omega arith) handed_over

abbrev crowded : Limiter
crowded = record { active = 6; waiting = 7 ∷ 8 ∷ 9 ∷ [] }

admitted_in_order_example :
    (length (admitted_by 2 crowded).0 ≡ 2)
    × ((admitted_by 2 crowded).0 ++ (admitted_by 2 crowded).1.waiting ≡ 7 ∷ 8 ∷ 9 ∷ [])
    × ((admitted_by 2 crowded).1.active ≡ 6)
admitted_in_order_example = admitted_in_order 2 crowded (omega arith) (omega arith)
