-- ===== src/Security/Classifications.antt =====
-- scripts/security_gate/classifications.py
use optimizr_actions.Prelude.{Option, none, some, Text, codes, same, if◌then◌else◌}

-- The members of SECURITY_CLASSIFICATIONS.
pub data Classification : Type 0 where
  clean actionable_vulnerability unfixed_warning misconfiguration_detected secret_detected
        scanner_error not_run :
      Classification

unfoldable pub normalize_security_classification : Text → Option Classification
unfolding same
normalize_security_classification raw =
    if same raw (codes "clean")
    then some clean
    else if same raw (codes "actionable_vulnerability")
    then some actionable_vulnerability
    else if same raw (codes "unfixed_warning")
    then some unfixed_warning
    else if same raw (codes "misconfiguration_detected")
    then some misconfiguration_detected
    else if same raw (codes "secret_detected")
    then some secret_detected
    else if same raw (codes "scanner_error")
    then some scanner_error
    else if same raw (codes "not-run")
    then some not_run
    else if same raw (codes "gate_error")
    then some scanner_error
    else none
