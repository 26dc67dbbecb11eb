-- ===== src/Remediation/Window/Allowance.antt =====
-- When the windows are allowed.
use optimizr_actions.Prelude.{◌≡◌, List, [], Text, ok, All}
use optimizr_actions.Prelude.Json.{Fields}
use optimizr_actions.Remediation.Calendar.{format_utc}
use optimizr_actions.Remediation.Window.Observations.{Checked, Observation}
use optimizr_actions.Remediation.Window.Policy.{Policy, PolicyEntry, load_policy}
use optimizr_actions.Remediation.Window.Evaluation.{Clock, Finding, Rendering}
use optimizr_actions.Remediation.Window.Decision.{PolicyFile, clock_of}
use optimizr_actions.Remediation.Window.Matching.{AreKept}
use optimizr_actions.Remediation.Window.Coverage.{IsCovered}

-- What allows: nothing was refused, and each observation that was kept is covered.
abbrev pub IsAllowed : List PolicyEntry → Clock → List Observation × List Finding → Type 0
IsAllowed entries clock (kept, refused) = (refused ≡ []) × All (IsCovered entries clock) kept

module _ (rendering : Rendering) where
  -- What an allowed result says of its run.
  pub record Allowance (now : Clock) (file : Checked PolicyFile) (observations : List Fields)
      (evaluation_time : Text) : Type 0 where
    pub clock : Clock
    pub read : PolicyFile
    pub loaded : Policy
    pub timed : clock_of now evaluation_time ≡ ok clock
    pub opened : file ≡ ok read
    pub valid : load_policy read.payload (format_utc clock.moment) ≡ ok loaded
    pub kept : List Observation
    pub normalized : AreKept kept 0 observations
    pub covered : All (IsCovered loaded.entries clock) kept
