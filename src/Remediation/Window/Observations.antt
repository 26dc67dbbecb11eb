-- ===== src/Remediation/Window/Observations.antt =====
-- remediation_window.py: the fields of a policy and of an observation.
use optimizr_actions.Prelude.{
  ℕ, suc, ◌-◌, Bool, true, false, ◌&&◌, ◌||◌, Option, none, some, List, [], ◌∷◌, map, Text, codes,
  same, member, ◌==◌, if◌then◌else◌, Result, ok, err, ◌>>=◌, ◌>>◌, guard, raise_if, or_raise, strip,
  lower, text_le,
}
use optimizr_actions.Prelude.Sort.{sorted}
use optimizr_actions.Prelude.Json.{
  or_null, Json, Fields, array, text, bool, elements, get, to_fields,
}
use optimizr_actions.Prelude.Regex.{
  Regex, one, seq, exactly, times, up_to, fullmatch, between, is_ascii_alnum,
}
use optimizr_actions.Remediation.Calendar.{Moment, parse_utc}
use optimizr_actions.Remediation.Lifecycle.{LifecycleError}

abbrev pub is_hex : ℕ → Bool
is_hex c = between b'0' b'9' c || between b'a' b'f' c || between b'A' b'F' c

-- `sha256:[0-9a-fA-F]{64}\Z`
abbrev pub sha256_digest : Regex
sha256_digest = seq (exactly (codes "sha256:")) (times 64 (one is_hex))

-- `[0-9a-fA-F]{40}\Z`
abbrev pub git_sha : Regex
git_sha = times 40 (one is_hex)

-- `[A-Za-z0-9][A-Za-z0-9._:/-]{0,127}\Z`
abbrev pub service_scope : Regex
service_scope = seq (one is_ascii_alnum) (
    up_to 127 (
      one (λ c. is_ascii_alnum c || c == b'.' || c == b'_' || c == b':' || c == b'/' || c == b'-')))

abbrev pub blocked_critical_exposures : List Text
blocked_critical_exposures = codes "internet-facing" ∷ codes "privileged-boundary" ∷ []

abbrev pub allowed_exposures : List Text
allowed_exposures = codes "internal" ∷ blocked_critical_exposures

abbrev pub allowed_classification : Text
allowed_classification = codes "actionable_vulnerability"

pub data Label : Type 0 where
  policy : Label
  policy_entry entry_fingerprint observation : ℕ → Label

pub data WindowError : Type 0 where
  text_required bool_required : Label → Text → WindowError
  not_rfc3339 : Label → Text → WindowError
  digests_missing digests_repeated : Label → WindowError
  digest_malformed : Label → ℕ → WindowError
  scope_unsafe exposure_unknown : WindowError
  sha_malformed image_malformed severity_unknown : ℕ → WindowError
  policy_unreadable policy_missing version_unknown entries_missing : WindowError
  entry_not_object fingerprint_not_object fingerprint_repeated : ℕ → WindowError
  entry_repeated : Text → WindowError
  first_seen_in_future reviewed_in_future deadline_not_after : WindowError
  lifecycle_refused : LifecycleError → WindowError
  result_sha_malformed result_digest_malformed : WindowError

abbrev pub Checked : Type 0 → Type 0
Checked A = Result WindowError A

abbrev pub stripped : Option Json → Option Text
stripped (some (text s)) = elim (strip s) [ [] ↦ none | c ∷ t ↦ some (c ∷ t) ]
stripped _ = none

unfoldable pub required_text : Fields → Text → Label → Checked Text
unfolding get strip
required_text payload name label = or_raise (stripped (get payload name)) (text_required label name)

unfoldable pub required_bool : Fields → Text → Label → Checked Bool
unfolding get
required_bool payload name label = elim (get payload name) [
  | some (bool b) ↦ ok b
  | _ ↦ err (bool_required label name)
]

-- `_parse_rfc3339_utc` of a text that stands in a field
unfoldable pub parse_time : Text → Label → Text → Checked Moment
unfolding parse_utc
parse_time value label name = or_raise (parse_utc value) (not_rfc3339 label name)

unfoldable pub required_time : Fields → Text → Label → Checked Moment
unfolding required_text parse_time
required_time payload name label = required_text payload name label >>= λ s. parse_time s label name

-- Only a text can have the form of a digest, whatever `str` makes of another value.
unfoldable pub digest_of : Label → ℕ → Json → Checked Text
unfolding strip lower fullmatch
digest_of label index (text s) = do
  let digest = map lower (strip s)
  guard (fullmatch sha256_digest digest) (digest_malformed label index)
  ok digest
digest_of label index _ = err (digest_malformed label index)

unfoldable pub digests_of : Label → ℕ → List Json → Checked (List Text)
unfolding digest_of
digests_of label index [] = ok []
digests_of label index (item ∷ items) = do
  digest ← digest_of label index item
  rest ← digests_of label (suc index) items
  ok (digest ∷ rest)

-- `len(values) != len(set(values))`
unfoldable pub repeats : List Text → Bool
unfolding member same
repeats [] = false
repeats (s ∷ ss) = member s ss || repeats ss

unfoldable pub listed : Option Json → List Json
unfolding elements
listed (some (array items)) = elements items
listed _ = []

abbrev pub is_nothing : List Json → Bool
is_nothing [] = true
is_nothing (_ ∷ _) = false

unfoldable pub normalize_digest_list : Option Json → Label → Checked (List Text)
unfolding listed digests_of repeats sorted text_le
normalize_digest_list raw label = do
  raise_if (is_nothing (listed raw)) (digests_missing label)
  values ← digests_of label 0 (listed raw)
  raise_if (repeats values) (digests_repeated label)
  ok (sorted text_le values)

unfoldable pub validate_remediation_context : Text → Text → Checked (Text × Text)
unfolding strip lower fullmatch member same
validate_remediation_context scope exposure = do
  guard (fullmatch service_scope (strip scope)) scope_unsafe
  guard (member (map lower (strip exposure)) allowed_exposures) exposure_unknown
  ok (strip scope, map lower (strip exposure))

pub record Fingerprint : Type 0 where
  pub service : Text
  pub advisory_id : Text
  pub package_purl : Text
  pub installed_version : Text
  pub fixed_version : Text
  pub image_lineage_digests : List Text

unfoldable pub canonical_fingerprint : Fields → Label → Checked Fingerprint
unfolding required_text normalize_digest_list get
canonical_fingerprint raw label = do
  service ← required_text raw (codes "service") label
  advisory_id ← required_text raw (codes "advisory_id") label
  package_purl ← required_text raw (codes "package_purl") label
  installed_version ← required_text raw (codes "installed_version") label
  fixed_version ← required_text raw (codes "fixed_version") label
  lineage ← normalize_digest_list (get raw (codes "image_lineage_digests")) label
  ok (record {
    service = service;
    advisory_id = advisory_id;
    package_purl = package_purl;
    installed_version = installed_version;
    fixed_version = fixed_version;
    image_lineage_digests = lineage;
  })

unfoldable pub same_texts : List Text → List Text → Bool
unfolding same
same_texts [] [] = true
same_texts (s ∷ ss) (t ∷ ts) = same s t && same_texts ss ts
same_texts _ _ = false

-- `_fingerprint_key(f) == _fingerprint_key(g)`
unfoldable pub same_fingerprint : Fingerprint → Fingerprint → Bool
unfolding same same_texts
same_fingerprint f g =
    same f.service g.service
    && same f.advisory_id g.advisory_id
    && same f.package_purl g.package_purl
    && same f.installed_version g.installed_version
    && same f.fixed_version g.fixed_version
    && same_texts f.image_lineage_digests g.image_lineage_digests

pub data Severity : Type 0 where
  high critical : Severity

-- `str.upper` on the characters that become letters of ASCII: besides those in lower case the
-- dotless i and the long s.
unfoldable pub upper : ℕ → ℕ
upper c =
    if between b'a' b'z' c
    then c - 32
    else if c == 0x131
    then b'I'
    else if c == 0x17f
    then b'S'
    else c

unfoldable pub severity_of : Text → Option Severity
unfolding upper same
severity_of s =
    if same (map upper s) (codes "HIGH")
    then some high
    else if same (map upper s) (codes "CRITICAL")
    then some critical
    else none

pub record Observation : Type 0 where
  pub fingerprint : Fingerprint
  pub classification : Text
  pub severity : Severity
  pub exposure_criticality : Text
  pub known_exploited : Bool
  pub fixed_image_verified : Bool
  pub source_sha : Text
  pub image_identity : Text

unfoldable pub canonical_observation : Fields → ℕ → Checked Observation
unfolding required_text required_bool validate_remediation_context canonical_fingerprint get
    fullmatch lower severity_of
canonical_observation raw index = do
  let label = observation index
  scope_text ← required_text raw (codes "service_scope") label
  exposure_text ← required_text raw (codes "exposure_criticality") label
  (scope, exposure) ← validate_remediation_context scope_text exposure_text
  advisory_id ← required_text raw (codes "advisory_id") label
  package_purl ← required_text raw (codes "package_purl") label
  installed_version ← required_text raw (codes "installed_version") label
  fixed_version ← required_text raw (codes "fixed_version") label
  fingerprint ←
      canonical_fingerprint
        (to_fields (
          (codes "service", text scope)
          ∷ (codes "advisory_id", text advisory_id)
          ∷ (codes "package_purl", text package_purl)
          ∷ (codes "installed_version", text installed_version)
          ∷ (codes "fixed_version", text fixed_version)
          ∷ (codes "image_lineage_digests", or_null (get raw (codes "image_lineage_digests")))
          ∷ []))
        label
  classification ← required_text raw (codes "classification") label
  severity_text ← required_text raw (codes "severity") label
  sha_text ← required_text raw (codes "source_sha") label
  identity_text ← required_text raw (codes "image_identity") label
  guard (fullmatch git_sha (map lower sha_text)) (sha_malformed index)
  guard (fullmatch sha256_digest (map lower identity_text)) (image_malformed index)
  severity ← or_raise (severity_of severity_text) (severity_unknown index)
  known_exploited ← required_bool raw (codes "known_exploited") label
  fixed_image_verified ← required_bool raw (codes "fixed_image_verified") label
  ok (record {
    fingerprint = fingerprint;
    classification = classification;
    severity = severity;
    exposure_criticality = exposure;
    known_exploited = known_exploited;
    fixed_image_verified = fixed_image_verified;
    source_sha = map lower sha_text;
    image_identity = map lower identity_text;
  })
