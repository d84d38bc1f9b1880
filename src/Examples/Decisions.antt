-- ===== src/Examples/Decisions.antt =====
-- The theorems on decisions at concrete inputs (skivolve/comparator_calibration/calibration.py and
-- skivolve/runner.py).
use skivolve.Base.{◌≡◌, refl, ◌==◌, string_eq, all, contains, subset, true, ok, some, String}
use skivolve.Base.Int.{pos}
use skivolve.Base.Dict.{values}
use skivolve.Calibration.{requirement_statuses, derive_eligibility, sides, derive_outcome}
use skivolve.Calibration.Symmetry.{
  swap_given, swap_outcome, derive_outcome-swap, derive_eligibility_lem,
}
use skivolve.Verifier.{serialized_arm_order}
use skivolve.Verifier.Payload.{swap_arms, serialized_arm_order-alternates}
use skivolve.Examples.{criteria0, criterion_ids0, checks0}

arm_order_example :
    serialized_arm_order (λ s c k. 3) (pos 7) "skill-vs-none" "case-1" 2
    ≡ swap_arms (serialized_arm_order (λ s c k. 3) (pos 7) "skill-vs-none" "case-1" 1)
arm_order_example = serialized_arm_order-alternates (λ s c k. 3) (pos 7) "skill-vs-none" "case-1" 1

derive_outcome_example :
    derive_outcome (sides "eligible" "eligible") (swap_given (some criteria0)) criterion_ids0
    ≡ swap_outcome (derive_outcome (sides "eligible" "eligible") (some criteria0) criterion_ids0)
derive_outcome_example = derive_outcome-swap "eligible" "eligible" (some criteria0) criterion_ids0

checks0-supported : subset (values checks0) requirement_statuses ≡ true
unfolding subset contains
checks0-supported = refl

derive_eligibility_example :
    (decision : String) × (derive_eligibility checks0 ≡ ok decision)
    × ((decision == "eligible") ≡ all (λ t. t == "satisfied") (values checks0))
derive_eligibility_example = derive_eligibility_lem checks0 checks0-supported
