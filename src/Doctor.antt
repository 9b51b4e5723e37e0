-- ===== src/Doctor.antt =====
-- crates/outboard-core/src/doctor.rs: health checks and the status of a report.
use outboard.Prelude.{
  Text, codes, ◌≡◌, List, [], ◌∷◌, Bool, true, false, if◌then◌else◌, any, any_iff, Any, inl, inr,
  ◌⊎◌, Any-map, arith, not, refl, All,
}

pub data DoctorStatus : Type 0 where
  pass warn fail : DoctorStatus

pub record DoctorCheck : Type 0 where
  pub name : Text
  pub status : DoctorStatus
  pub message : Text

unfoldable pub passed : Text → Text → DoctorCheck
passed name message = record { name = name; status = pass; message = message }

unfoldable pub warned : Text → Text → DoctorCheck
warned name message = record { name = name; status = warn; message = message }

unfoldable pub failed : Text → Text → DoctorCheck
failed name message = record { name = name; status = fail; message = message }

pub record DoctorReport : Type 0 where
  pub status : DoctorStatus
  pub checks : List DoctorCheck

abbrev pub is_fail : DoctorStatus → Bool
is_fail fail = true
is_fail _ = false

abbrev pub is_warn : DoctorStatus → Bool
is_warn warn = true
is_warn _ = false

unfoldable pub from_checks : List DoctorCheck → DoctorReport
from_checks checks = record {
  status =
      if any (λ c. is_fail (DoctorCheck.status c)) checks
      then fail
      else if any (λ c. is_warn (DoctorCheck.status c)) checks
      then warn
      else pass;
  checks = checks;
}

-- DoctorReport::healthy
unfoldable pub healthy : DoctorReport
healthy = from_checks (passed (codes "plugin") (codes "plugin reports healthy") ∷ [])

unfoldable pub is_healthy : DoctorReport → Bool
is_healthy r = not (is_fail r.status)

-- How bad a status is.
abbrev pub Severe : DoctorStatus → DoctorStatus → Type 0
Severe fail _ = Unit
Severe warn fail = ⊥
Severe warn _ = Unit
Severe pass pass = Unit
Severe pass _ = ⊥

severest :
    (f w : Bool) (c : DoctorStatus)
    → (is_fail c ≡ true → f ≡ true)
    → (is_warn c ≡ true → w ≡ true)
    → Severe (if f then fail else if w then warn else pass) c
severest true w c hf hw = tt
severest false true fail hf hw = cc (hf refl)
severest false true warn hf hw = tt
severest false true pass hf hw = tt
severest false false fail hf hw = cc (hf refl)
severest false false warn hf hw = cc (hw refl)
severest false false pass hf hw = tt

-- The tests that a list passes, and those of a list that holds one more check.
from_checks_above :
    (f w : Bool) (checks : List DoctorCheck)
    → (any (λ c. is_fail (DoctorCheck.status c)) checks ≡ true → f ≡ true)
    → (any (λ c. is_warn (DoctorCheck.status c)) checks ≡ true → w ≡ true)
    → All (λ c. Severe (if f then fail else if w then warn else pass) (DoctorCheck.status c)) checks
from_checks_above f w [] hf hw = tt
from_checks_above f w (c ∷ cs) hf hw = (
  severest f w c.status (λ h. hf (ground arith)) (λ h. hw (ground arith)),
  from_checks_above f w cs (λ h. hf (ground arith)) (λ h. hw (ground arith)),
)

attained :
    (f w : Bool) (checks : List DoctorCheck)
    → any (λ c. is_fail (DoctorCheck.status c)) checks ≡ f
    → any (λ c. is_warn (DoctorCheck.status c)) checks ≡ w
    → ((if f then fail else if w then warn else pass) ≡ pass)
      ⊎ Any (λ c. DoctorCheck.status c ≡ (if f then fail else if w then warn else pass)) checks
attained true w checks hf hw = inr (
    Any-map (λ c. is_fail (DoctorCheck.status c) ≡ true) (λ c. DoctorCheck.status c ≡ fail)
      (λ c h. ground arith) checks ((any_iff _ checks).0 hf))
attained false true checks hf hw = inr (
    Any-map (λ c. is_warn (DoctorCheck.status c) ≡ true) (λ c. DoctorCheck.status c ≡ warn)
      (λ c h. ground arith) checks ((any_iff _ checks).0 hw))
attained false false checks hf hw = inl refl

-- The status of a report is at least as bad as that of each check, and is either pass or the status
-- of one of the checks.
pub from_checks_lem :
    (checks : List DoctorCheck)
    → All (λ c. Severe (from_checks checks).status (DoctorCheck.status c)) checks
      × (((from_checks checks).status ≡ pass)
          ⊎ Any (λ c. DoctorCheck.status c ≡ (from_checks checks).status) checks)
unfolding from_checks
from_checks_lem checks =
    (from_checks_above _ _ checks (λ h. h) (λ h. h), attained _ _ checks refl refl)
