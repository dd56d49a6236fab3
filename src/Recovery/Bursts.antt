-- ===== src/Recovery/Bursts.antt =====
-- `InvalidFrameRecoveryController`: its invariant, its decisions, and the rebuilds of the stream.
use v4l2_capture.Prelude.{ℕ, suc, ◌+◌, ◌-◌, ◌≤◌, ◌<◌, ◌≡◌, ◌≢◌, ◌↔◌, refl, Bool, false, max, some}
use v4l2_capture.Prelude.{List, [], ◌∷◌, arith, length, All}
use native.Mathlib.Decide.{dec_lt}
use v4l2_capture.Prelude.{◌∙◌}
use v4l2_capture.Prelude.Int.{ℤ, pos}
use v4l2_capture.Recovery.{Decision, recover}
use v4l2_capture.Recovery.{InvalidFrameRecovery, create_invalid_frame_recovery, observe}
use v4l2_capture.Recovery.{on_invalid_frame_recovery_success, on_external_recovery_success}

-- Between two frames the streak is short of the threshold, the peak within it, the cooldown within
-- its configured length and the recoveries within the budget.
pub record IsValid (c : InvalidFrameRecovery) : Type 0 where
  pub streak_short : c.consecutive_invalid < c.threshold
  pub streak_peak : c.consecutive_invalid ≤ c.peak_invalid
  pub peak_within : c.peak_invalid ≤ c.threshold
  pub cooldown_within : c.cooldown_remaining ≤ c.cooldown_frames
  pub budget_within : c.recoveries_completed ≤ c.max_recoveries

pub create-IsValid :
    (t cd m : ℤ) {c : InvalidFrameRecovery}
    → create_invalid_frame_recovery t cd m ≡ some c
    → IsValid c
unfolding create_invalid_frame_recovery
create-IsValid t cd m e = ground arith

pub observe-IsValid : (b : Bool) {c : InvalidFrameRecovery} → IsValid c → IsValid (observe b c).1
unfolding observe
observe-IsValid b v = ground arith

-- A rebuild is asked for exactly when the frame is invalid, completes a streak of the threshold's
-- length, the cooldown is over with this frame, and the budget is not spent.
pub observe-recover_iff :
    (b : Bool) (c : InvalidFrameRecovery)
    → IsValid c
    → ((observe b c).0 ≡ recover) ↔ (
        (b ≡ false)
        × (c.consecutive_invalid + 1 ≡ c.threshold)
        × (c.cooldown_remaining ≤ 1)
        × (c.recoveries_completed < c.max_recoveries))
unfolding observe
observe-recover_iff b c v = ground arith

-- The decisions on a run of frames with no rebuild in between, and the state after it.
pub observe_all : List Bool → InvalidFrameRecovery → List Decision × InvalidFrameRecovery
observe_all [] c = ([], c)
observe_all (b ∷ bs) c =
    let (d, c') = observe b c in let (ds, c'') = observe_all bs c' in (d ∷ ds, c'')

observe_streak :
    (b : Bool) (c : InvalidFrameRecovery)
    → let (d, c') = observe b c in
      (c'.consecutive_invalid ≤ c.consecutive_invalid + 1)
      × (c'.threshold ≡ c.threshold)
      × (c'.cooldown_remaining ≡ c.cooldown_remaining - 1)
      × (d ≡ recover → (c.threshold ≤ c.consecutive_invalid + 1) × (c.cooldown_remaining ≤ 1))
unfolding observe
observe_streak b c = ground arith

abbrev pub IsQuiet : Decision → Type 0
IsQuiet d = d ≢ recover

IsQuiet-in_streak :
    (bs : List Bool) (c : InvalidFrameRecovery)
    → c.consecutive_invalid + length bs < c.threshold
    → All IsQuiet (observe_all bs c).0
unfolding observe_all
IsQuiet-in_streak [] c h = tt
IsQuiet-in_streak (b ∷ bs) c h = (
  λ e. omega (arith, (observe_streak b c).3 e),
  IsQuiet-in_streak bs (observe b c).1 (omega (arith, observe_streak b c)),
)

IsQuiet-in_cooldown :
    (bs : List Bool) (c : InvalidFrameRecovery)
    → length bs < c.cooldown_remaining
    → All IsQuiet (observe_all bs c).0
unfolding observe_all
IsQuiet-in_cooldown [] c h = tt
IsQuiet-in_cooldown (b ∷ bs) c h = (
  λ e. omega (arith, (observe_streak b c).3 e),
  IsQuiet-in_cooldown bs (observe b c).1 (omega (arith, observe_streak b c)),
)

-- After a rebuild for invalid frames, and after one for a capture error, no run of frames shorter
-- than the larger of the threshold and the cooldown asks for another rebuild.
pub rebuilds_are_spaced :
    (c : InvalidFrameRecovery) (bs : List Bool)
    → length bs < max c.threshold c.cooldown_frames
    → All IsQuiet (observe_all bs (on_invalid_frame_recovery_success c)).0
      × All IsQuiet (observe_all bs (on_external_recovery_success c)).0
unfolding on_invalid_frame_recovery_success on_external_recovery_success
rebuilds_are_spaced c bs h = elim (dec_lt (length bs) c.threshold) [
  | yes p ↦ (
    IsQuiet-in_streak bs (on_invalid_frame_recovery_success c) (omega arith),
    IsQuiet-in_streak bs (on_external_recovery_success c) (omega arith),
  )
  | no p ↦ (
    IsQuiet-in_cooldown bs (on_invalid_frame_recovery_success c) (omega arith),
    IsQuiet-in_cooldown bs (on_external_recovery_success c) (omega arith),
  )
]

-- What happens to the controller in the capture loop: a frame, with the rebuild that it asks for
-- made or (with recovery disabled) not, or a rebuild after a capture error.
pub data Step (c : InvalidFrameRecovery) : InvalidFrameRecovery → Type 0 where
  frame : (b : Bool) → Step c (observe b c).1
  rebuilt :
      (b : Bool)
      → (observe b c).0 ≡ recover
      → Step c (on_invalid_frame_recovery_success (observe b c).1)
  external : Step c (on_external_recovery_success c)

pub data Reach (c : InvalidFrameRecovery) : InvalidFrameRecovery → Type 0 where
  here : Reach c c
  next : {d e : InvalidFrameRecovery} → Reach c d → Step d e → Reach c e

observe_budget :
    (b : Bool) (c : InvalidFrameRecovery)
    → ((observe b c).1.recoveries_completed ≡ c.recoveries_completed)
      × ((observe b c).1.max_recoveries ≡ c.max_recoveries)
unfolding observe
observe_budget b c = ground arith

create_budget :
    (t cd : ℤ) (m : ℕ) {c : InvalidFrameRecovery}
    → create_invalid_frame_recovery t cd (pos m) ≡ some c
    → c.max_recoveries ≡ m
unfolding create_invalid_frame_recovery
create_budget t cd m e = ground arith

Step-IsValid : {c d : InvalidFrameRecovery} → Step c d → IsValid c → IsValid d
unfolding on_invalid_frame_recovery_success on_external_recovery_success
Step-IsValid (frame b) v = observe-IsValid b v
Step-IsValid {c} (rebuilt b e) v =
    omega (arith, observe-IsValid b v, (observe-recover_iff b c v).0 e, observe_budget b c)
Step-IsValid external v = omega arith

Step-max : {c d : InvalidFrameRecovery} → Step c d → d.max_recoveries ≡ c.max_recoveries
unfolding on_invalid_frame_recovery_success on_external_recovery_success observe
Step-max (frame b) = ground arith
Step-max (rebuilt b e) = ground arith
Step-max external = refl

Reach-IsValid :
    {c d : InvalidFrameRecovery}
    → IsValid c
    → Reach c d
    → IsValid d × (d.max_recoveries ≡ c.max_recoveries)
Reach-IsValid v here = (v, refl)
Reach-IsValid v (next r s) = let (w, e) = Reach-IsValid v r in (Step-IsValid s w, Step-max s ∙ e)

-- How many of the steps rebuild the stream for invalid frames.
pub rebuilds : {c d : InvalidFrameRecovery} → Reach c d → ℕ
rebuilds here = 0
rebuilds (next r (frame b)) = rebuilds r
rebuilds (next r (rebuilt b e)) = suc (rebuilds r)
rebuilds (next r external) = rebuilds r

create_none :
    (t cd m : ℤ) {c : InvalidFrameRecovery}
    → create_invalid_frame_recovery t cd m ≡ some c
    → c.recoveries_completed ≡ 0
unfolding create_invalid_frame_recovery
create_none t cd m e = ground arith

-- Every such rebuild is counted, and no other step is.
rebuilds-counted :
    {c d : InvalidFrameRecovery} (r : Reach c d)
    → d.recoveries_completed ≡ c.recoveries_completed + rebuilds r
unfolding rebuilds on_invalid_frame_recovery_success on_external_recovery_success
rebuilds-counted here = omega arith
rebuilds-counted (next {d} r (frame b)) = omega (arith, rebuilds-counted r, observe_budget b d)
rebuilds-counted (next {d} r (rebuilt b e)) = omega (arith, rebuilds-counted r, observe_budget b d)
rebuilds-counted (next r external) = omega (arith, rebuilds-counted r)

-- From a new controller, however frames, rebuilds and capture errors follow one another, the stream
-- is rebuilt for invalid frames at most as often as the budget that the controller was given, and
-- `recoveries_completed` is the number of these rebuilds.
pub rebuilds-within_budget :
    (t cd : ℤ) (m : ℕ) {c d : InvalidFrameRecovery}
    → create_invalid_frame_recovery t cd (pos m) ≡ some c
    → (r : Reach c d) → IsValid d × (d.recoveries_completed ≡ rebuilds r) × (rebuilds r ≤ m)
rebuilds-within_budget t cd m {c} {d} e r =
    let (v, same) = Reach-IsValid (create-IsValid t cd (pos m) e) r in
    let counted : d.recoveries_completed ≡ rebuilds r =
      omega (arith, rebuilds-counted r, create_none t cd (pos m) e) in
    (v, counted, omega (arith, create_budget t cd m e, counted))
