-- ===== src/Remediation/Window/Examples.antt =====
-- A finding of severity HIGH with an active entry, and one that repeats it with another risk.
use optimizr_actions.Prelude.{
  ◌≡◌, refl, Bool, true, false, some, [], ◌∷◌, ◌++◌, Text, codes, replicate, Result, ok, err,
}
use optimizr_actions.Prelude.Integers.{pos}
use optimizr_actions.Prelude.Json.{
  Json, Fields, text, array, object, int, bool, to_items, to_fields,
}
use optimizr_actions.Remediation.Window.Observations.{WindowError}
use optimizr_actions.Remediation.Window.Evaluation.{Clock, Rendering, WindowResult}
use optimizr_actions.Remediation.Window.Decision.{
  PolicyFile, empty_result, evaluate_remediation_windows,
}
use optimizr_actions.Remediation.Window.Allowance.{Allowance}

program : Unit {0}
unfolding evaluate_remediation_windows
program = tt

abbrev digest : Text
digest = codes "sha256:" ++ replicate 64 b'0'

abbrev entry : Json
entry = object (
    to_fields (
      (codes "id", text (codes "E1"))
      ∷ (
        codes "fingerprint",
        object (
            to_fields (
              (codes "service", text (codes "api"))
              ∷ (codes "advisory_id", text (codes "CVE-1"))
              ∷ (codes "package_purl", text (codes "pkg:deb/x"))
              ∷ (codes "installed_version", text (codes "1"))
              ∷ (codes "fixed_version", text (codes "2"))
              ∷ (codes "image_lineage_digests", array (to_items (text digest ∷ [])))
              ∷ [])),
      )
      ∷ (codes "first_seen_at", text (codes "2026-01-01T00:00:00Z"))
      ∷ (codes "deadline_at", text (codes "2026-01-20T00:00:00Z"))
      ∷ (codes "reviewed_at", text (codes "2026-01-02T00:00:00Z"))
      ∷ (codes "status", text (codes "active"))
      ∷ (codes "reason", text (codes "r"))
      ∷ (codes "owner", text (codes "o"))
      ∷ (codes "reviewer", text (codes "v"))
      ∷ (codes "statement", text (codes "s"))
      ∷ (codes "compensating_control", text (codes "c"))
      ∷ (codes "reviewed_by", text (codes "b"))
      ∷ []))

abbrev file : PolicyFile
file = record {
  payload = to_fields (
      (codes "version", int (pos 1))
      ∷ (codes "policy_owner", text (codes "security"))
      ∷ (codes "entries", array (to_items (entry ∷ [])))
      ∷ []);
  digest = codes "d";
}

abbrev observed : Bool → Fields
observed exploited = to_fields (
    (codes "service_scope", text (codes "api"))
    ∷ (codes "exposure_criticality", text (codes "Internal"))
    ∷ (codes "advisory_id", text (codes "CVE-1"))
    ∷ (codes "package_purl", text (codes "pkg:deb/x"))
    ∷ (codes "installed_version", text (codes "1"))
    ∷ (codes "fixed_version", text (codes "2"))
    ∷ (codes "image_lineage_digests", array (to_items (text digest ∷ [])))
    ∷ (codes "classification", text (codes "actionable_vulnerability"))
    ∷ (codes "severity", text (codes "high"))
    ∷ (codes "source_sha", text (replicate 40 b'a'))
    ∷ (codes "image_identity", text digest)
    ∷ (codes "known_exploited", bool exploited)
    ∷ (codes "fixed_image_verified", bool false)
    ∷ [])

abbrev rendering : Rendering
rendering = record {
  observation_digest = λ _. codes "o";
  raw_digest = λ _. codes "r";
  str_of = λ _. codes "?";
}

abbrev noon : Clock
noon = record {
  moment = record { year = 2026; month = 1; day = 10; hour = 12; minute = 0; second = 0 };
  microsecond = 0;
}

abbrev time : Text
time = codes "2026-01-10T12:00:00Z"

-- The value of a call that returns.
abbrev value : Result WindowError WindowResult → WindowResult
value (ok a) = a
value (err e) = empty_result

exploited_refused :
    (value (
      evaluate_remediation_windows rendering noon
        (some (ok file))
        (observed true ∷ [])
        true
        time
        []
        [])).remediation_window_allowed
    ≡ false
unfolding program
exploited_refused = refl

-- The observation that is known to be exploited repeats the fingerprint of the first, and is dropped.
exploited_dropped :
    (value (
      evaluate_remediation_windows rendering noon
        (some (ok file))
        (observed false ∷ observed true ∷ [])
        true
        time
        []
        [])).remediation_window_allowed
    ≡ true
unfolding program
exploited_dropped = refl
