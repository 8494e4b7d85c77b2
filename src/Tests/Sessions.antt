-- ===== src/Tests/Sessions.antt =====
-- The sessions at concrete inputs.
use zwrt_datad.Prelude.{◌*◌, ◌≡◌, ◌≤◌, ◌↔◌, refl, true, false, some, List, [], ◌∷◌, length, arith}
use zwrt_datad.Prelude.Text.{codes}
use zwrt_datad.Sessions.{
  second, validate, issue, secure_eq, differing, unexpired, renew, admitted, hex, hex_digit,
  deadline_from,
}
use zwrt_datad.Sessions.Compare.{secure_eq_iff}
use zwrt_datad.Sessions.Trace.{Sample, issued, validated, run, IsRecent}
use zwrt_datad.Sessions.Recent.{empty_world, validate-IsRecent}
use zwrt_datad.Sessions.Issue.{validate-issue}

-- A token for the byte 171, used an hour later, and a token that nobody was given.
abbrev day : List Sample
day =
    record { now = 10 * second; call = issued 1780000000 (some (171 ∷ [])) }
    ∷ record { now = 3610 * second; call = validated (codes "ab") }
    ∷ record { now = 3620 * second; call = validated (codes "ac") }
    ∷ []

validate-IsRecent_example :
    IsRecent (codes "ab") (46000 * second) (run empty_world day).uses
    × (length (run empty_world day).sessions ≤ 16)
unfolding run validate unexpired renew secure_eq differing issue admitted hex hex_digit
    deadline_from
validate-IsRecent_example = validate-IsRecent day (46000 * second) (codes "ab") refl

expired_token : (validate (47000 * second) (codes "ab") (run empty_world day).sessions).1 ≡ false
unfolding run validate unexpired renew secure_eq differing issue admitted hex hex_digit
    deadline_from
expired_token = refl

validate-issue_example :
    (validate (40000 * second) (hex (171 ∷ [])) (issue second 0 (some (171 ∷ [])) []).0).1 ≡ true
validate-issue_example =
    validate-issue second 0 (171 ∷ []) [] (40000 * second) (omega arith) (omega arith)

secure_eq_iff_example : (secure_eq (codes "ab") (codes "ac") ≡ true) ↔ (codes "ab" ≡ codes "ac")
secure_eq_iff_example = secure_eq_iff (codes "ab") (codes "ac")
