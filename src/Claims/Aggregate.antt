-- ===== src/Claims/Aggregate.antt =====
-- What the aggregate verdict of a claim says of its subjects.
use keel_verifier.Base.{String, ◌≡◌, false, some, List, str_eq, arith}
use keel_verifier.Trust.Select.Laws.{Among}
use keel_verifier.Claims.{ClaimRegistry, VerdictSubject, verdict_value}

pub verdict_value-some :
    (registry : ClaimRegistry) (v w : String) → verdict_value registry v ≡ some w → w ≡ v
unfolding verdict_value
verdict_value-some registry v w h = ground arith

-- A subject that counts and has the verdict, when one is chosen for the claim.
abbrev HasVerdict : List VerdictSubject → String → Type 0
HasVerdict subjects v = (s : VerdictSubject) × Among s subjects × (s.verdict ≡ v)

-- None of the subjects has the verdict.
abbrev Lacks : List VerdictSubject → String → Type 0
Lacks subjects v = (s : VerdictSubject) → Among s subjects → str_eq s.verdict v ≡ false
