-- ===== src/Status/Reachability/History.antt =====
-- What a sequence of probes makes of a host, against a description that looks only at the probes.
use open_mcc_manager.Prelude.{
  ℕ, ◌+◌, ◌≤◌, ◌≡◌, ◌≢◌, ◌↔◌, refl, ap, ◌∙◌, Bool, Option, none, some, List, [], ◌∷◌, arith, leb,
  if◌then◌else◌, get_or_else,
}
use open_mcc_manager.Status.Events.{host_recovered, host_unreachable}
use open_mcc_manager.Status.Reachability.{
  up, suspect, down, ReachabilityCurrent, unobserved, next_reachability,
}

-- One probe: whether the host answered, and when.
pub record Probe : Type 0 where
  pub reached : Bool
  pub at : ℕ

-- The decision is stored as the next current state.
observe_probe : ℕ → ReachabilityCurrent → Probe → ReachabilityCurrent
observe_probe limit c p =
    let d = next_reachability c p.reached p.at limit in
    record { state = d.state; failure_started_at = d.failure_started_at }

-- The state after the probes of a history, the newest first.
pub observe : ℕ → List Probe → ReachabilityCurrent
observe limit [] = unobserved
observe limit (p ∷ ps) = observe_probe limit (observe limit ps) p

-- When the unbroken run of failures at the end of the history began.
abbrev pub failing_since : List Probe → Option ℕ
failing_since [] = none
failing_since (p ∷ ps) = if p.reached then none else some (get_or_else (failing_since ps) p.at)

-- The clock does not go back.
abbrev pub IsChronological : List Probe → Type 0
IsChronological [] = Unit
IsChronological (p ∷ []) = Unit
IsChronological (p ∷ q ∷ ps) = (q.at ≤ p.at) × IsChronological (q ∷ ps)

abbrev verdict : ℕ → ℕ → Option ℕ → ReachabilityCurrent
verdict limit now none = record { state = up; failure_started_at = none }
verdict limit now (some since) = record {
  state = if leb (since + limit) now then down else suspect;
  failure_started_at = some since;
}

-- The description: up if the last probe answered, down if the failures have lasted for the limit.
abbrev pub described : ℕ → List Probe → ReachabilityCurrent
described limit [] = unobserved
described limit (p ∷ ps) = verdict limit p.at (failing_since (p ∷ ps))

observe_probe-verdict :
    (limit last : ℕ) (o : Option ℕ) (p : Probe)
    → last ≤ p.at
    → observe_probe limit (verdict limit last o) p
      ≡ verdict limit p.at (if p.reached then none else some (get_or_else o p.at))
unfolding observe_probe next_reachability
observe_probe-verdict limit last none p h = ground arith
observe_probe-verdict limit last (some since) p h = ground arith

-- Whatever the probes, if the clock does not go back, the recorded state is the described one:
-- up exactly when the last probe answered, down exactly when every probe since a time at least
-- `limit` before the last one has failed, and the failures counted from their first.
pub observe-eq-described :
    (limit : ℕ) (history : List Probe)
    → IsChronological history
    → observe limit history ≡ described limit history
unfolding observe
observe-eq-described limit [] c = refl
observe-eq-described limit (p ∷ []) c = unfold observe_probe next_reachability in ground arith
observe-eq-described limit (p ∷ q ∷ ps) (h, c) =
    ap (λ s. observe_probe limit s p) (observe-eq-described limit (q ∷ ps) c)
    ∙ observe_probe-verdict limit q.at (failing_since (q ∷ ps)) p h

-- An outage is announced exactly when the host goes down, and a recovery exactly when it comes
-- back from being down: so outages and recoveries alternate.
pub outage_iff :
    (c : ReachabilityCurrent) (reached : Bool) (now limit : ℕ)
    → (((next_reachability c reached now limit).event ≡ some host_unreachable)
        ↔ ((c.state ≢ down) × ((next_reachability c reached now limit).state ≡ down)))
      × (((next_reachability c reached now limit).event ≡ some host_recovered)
          ↔ ((c.state ≡ down) × ((next_reachability c reached now limit).state ≡ up)))
unfolding next_reachability
outage_iff c reached now limit = ground arith
