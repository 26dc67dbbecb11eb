-- ===== src/Delivery/Request.antt =====
-- scripts/delivery/request.py: the request that delivery adapters submit.
pub mod RoundTrip
mod Examples
use optimizr_actions.Prelude.{
  ℕ, Bool, true, false, not, ◌&&◌, ◌||◌, Option, none, some, List, [], ◌∷◌, ◌++◌, map, Text, codes,
  same, member, ltb, leb, ◌==◌, if◌then◌else◌, Result, ok, err, ◌>>=◌, ◌>>◌, guard, raise_if,
  or_raise, any, length, strip, lower, is_space, contains, starts_with, ends_with, suc, text_le,
}
use optimizr_actions.Prelude.Splits.{split}
use optimizr_actions.Prelude.Dicts.{Dict}
use optimizr_actions.Prelude.Sort.{sorted}
use optimizr_actions.Prelude.Json.{Json, Fields, get, field, no_more, text}
use optimizr_actions.Prelude.Regex.{
  Regex, one, seq, fullmatch, search, fold, folded, opt, star, times, up_to, alts, seqs, between,
  is_ascii_alnum,
}

abbrev pub adapters : List Text
adapters = codes "github-actions" ∷ codes "gitlab-ci" ∷ codes "ansible" ∷ codes "manual" ∷ []

abbrev pub request_keys : List Text
request_keys =
    codes "adapter"
    ∷ codes "candidate_sha"
    ∷ codes "compose_file"
    ∷ codes "container_name"
    ∷ codes "reason"
    ∷ codes "repository"
    ∷ codes "service"
    ∷ codes "trusted_ref"
    ∷ []

-- `^[A-Za-z0-9][A-Za-z0-9._-]{0,63}$`
abbrev pub identifier : Regex
identifier =
    seq (one is_ascii_alnum)
      (up_to 63 (one (λ c. is_ascii_alnum c || c == b'.' || c == b'_' || c == b'-')))

-- `^[0-9a-f]{40}$`
abbrev pub commit_sha : Regex
commit_sha = times 40 (one (λ c. between b'0' b'9' c || between b'a' b'f' c))

-- `[_-]?key`
abbrev pub joined_key : Regex
joined_key = seq (opt (one (λ c. c == b'_' || c == b'-'))) (folded (codes "key"))

abbrev pub secret_assignment : Regex
secret_assignment = seqs (
    alts (
      folded (codes "password")
      ∷ folded (codes "secret")
      ∷ folded (codes "token")
      ∷ seq (folded (codes "api")) joined_key
      ∷ seq (folded (codes "private")) joined_key
      ∷ folded (codes "authorization")
      ∷ [])
    ∷ star (one is_space)
    ∷ one (λ c. c == b':' || c == b'=')
    ∷ [])

pub record DeployRequest : Type 0 where
  pub repository : Text
  pub service : Text
  pub candidate_sha : Text
  pub trusted_ref : Text
  pub compose_file : Text
  pub container_name : Text
  pub adapter : Text
  pub reason : Option Text

pub data RequestError : Type 0 where
  unknown_fields : List Text → RequestError
  not_trimmed not_bounded not_identifier : (subject : Text) → RequestError
  repository_not_owner_name sha_not_lowercase ref_not_trusted : RequestError
  compose_not_relative adapter_unknown : RequestError
  reason_not_bounded reason_not_line reason_secret : RequestError

abbrev pub Parsed : Type 0 → Type 0
Parsed A = Result RequestError A

-- A value that is a text.
abbrev pub text_value : Option Json → Option Text
text_value none = none
text_value (some value) = elim value [ text s ↦ some s | _ ↦ none ]

abbrev pub is_blank : Text → Bool
is_blank [] = true
is_blank (_ ∷ _) = false

unfoldable pub trimmed : Text → Text → ℕ → Parsed Text
unfolding same strip is_space
trimmed key value maximum = do
  raise_if (is_blank value || not (same value (strip value))) (not_trimmed key)
  raise_if (ltb maximum (length value) || any is_space value) (not_bounded key)
  ok value

-- `_text(payload, key, maximum=maximum)`
unfoldable pub text_of : Fields → Text → ℕ → Parsed Text
unfolding get trimmed
text_of payload key maximum = do
  value ← or_raise (text_value (get payload key)) (not_trimmed key)
  trimmed key value maximum

unfoldable pub check_identifier : Text → Text → Parsed Text
unfolding fullmatch
check_identifier value subject = do
  guard (fullmatch identifier value) (not_identifier subject)
  ok value

-- `value.count(…)` of one character
unfoldable pub count : ℕ → Text → ℕ
count c [] = 0
count c (d ∷ s) = let n = count c s in if d == c then suc n else n

unfoldable pub check_ref : Text → Parsed Text
unfolding starts_with count contains is_space
check_ref value = do
  guard
      ((starts_with value (codes "refs/heads/") || starts_with value (codes "refs/tags/"))
        && leb 2 (count b'/' value)
        && not (contains value (codes ".."))
        && not (contains value (codes "//"))
        && not (any (λ c. c == 0x5c) value)
        && not (any is_space value))
      ref_not_trusted
  ok value

unfoldable pub check_compose_file : Text → Parsed Text
unfolding split member same starts_with ends_with lower
check_compose_file value = do
  raise_if
      (starts_with value (codes "/")
        || starts_with value (0x5c ∷ [])
        || any (λ c. c == 0x5c) value
        || any (λ part. member part ([] ∷ codes "." ∷ codes ".." ∷ [])) (split b'/' value)
        || not (
            ends_with (map lower value) (codes ".yml")
            || ends_with (map lower value) (codes ".yaml")))
      compose_not_relative
  ok value

-- `value.partition(…)` at one character, or nothing where it does not occur
unfoldable pub partition : ℕ → Text → Option (Text × Text)
partition c [] = none
partition c (d ∷ s) =
    let rest = partition c s in
    if d == c
    then some ([], s)
    else elim rest [ none ↦ none | some (before, after) ↦ some (d ∷ before, after) ]

unfoldable pub check_repository : Text → Parsed Text
unfolding partition check_identifier
check_repository repository = do
  (owner, name) ← or_raise (partition b'/' repository) repository_not_owner_name
  raise_if (any (λ c. c == b'/') name) repository_not_owner_name
  _ ← check_identifier owner (codes "repository owner")
  _ ← check_identifier name (codes "repository name")
  ok repository

unfoldable pub check_sha : Text → Parsed Text
unfolding fullmatch
check_sha value = do guard (fullmatch commit_sha value) sha_not_lowercase; ok value

unfoldable pub check_adapter : Text → Parsed Text
unfolding member same
check_adapter value = do guard (member value adapters) adapter_unknown; ok value

unfoldable pub check_reason : Text → Parsed (Option Text)
unfolding same strip search fold is_space
check_reason reason = do
  raise_if (is_blank reason || ltb 256 (length reason)) reason_not_bounded
  raise_if (not (same reason (strip reason)) || any (λ c. c == 13 || c == 10) reason)
      reason_not_line
  raise_if (search secret_assignment reason) reason_secret
  ok (some reason)

unfoldable pub parse_reason : Option Json → Parsed (Option Text)
unfolding check_reason
parse_reason none = ok none
parse_reason (some Json.null) = ok none
parse_reason (some value) = or_raise (text_value (some value)) reason_not_bounded >>= check_reason

-- `set(payload) - REQUEST_KEYS`; the keys of a mapping are distinct.
unfoldable pub unknown_keys : Fields → List Text
unfolding member same
unknown_keys no_more = []
unknown_keys (field key _ rest) =
    let others = unknown_keys rest in if member key request_keys then others else key ∷ others

unfoldable pub raise_unknown : List Text → Parsed (Unit {0})
unfolding sorted text_le
raise_unknown [] = ok tt
raise_unknown (key ∷ keys) = err (unknown_fields (sorted text_le (key ∷ keys)))

unfoldable pub parse_request : Fields → Parsed DeployRequest
unfolding raise_unknown unknown_keys get text_of check_repository check_identifier check_sha
    check_ref check_compose_file check_adapter parse_reason
parse_request payload = do
  raise_unknown (unknown_keys payload)
  repository ← text_of payload (codes "repository") 129 >>= check_repository
  service ← text_of payload (codes "service") 256 >>= λ s. check_identifier s (codes "service")
  candidate_sha ← text_of payload (codes "candidate_sha") 256 >>= check_sha
  trusted_ref ← text_of payload (codes "trusted_ref") 256 >>= check_ref
  compose_file ← text_of payload (codes "compose_file") 256 >>= check_compose_file
  container_name ← text_of payload (codes "container_name") 256 >>= λ s.
      check_identifier s (codes "container_name")
  adapter ← text_of payload (codes "adapter") 256 >>= check_adapter
  reason ← parse_reason (get payload (codes "reason"))
  ok (record {
    repository = repository;
    service = service;
    candidate_sha = candidate_sha;
    trusted_ref = trusted_ref;
    compose_file = compose_file;
    container_name = container_name;
    adapter = adapter;
    reason = reason;
  })

abbrev pub reason_field : Option Text → Dict Text
reason_field none = []
reason_field (some reason) = (codes "reason", reason) ∷ []

unfoldable pub canonicalize_request : DeployRequest → Dict Text
canonicalize_request request =
    (codes "adapter", request.adapter)
    ∷ (codes "candidate_sha", request.candidate_sha)
    ∷ (codes "compose_file", request.compose_file)
    ∷ (codes "container_name", request.container_name)
    ∷ (codes "repository", request.repository)
    ∷ (codes "service", request.service)
    ∷ (codes "trusted_ref", request.trusted_ref)
    ∷ reason_field request.reason

-- A dict of texts as a payload.
abbrev pub as_payload : Dict Text → Fields
as_payload [] = no_more
as_payload ((key, value) ∷ rest) = field key (Json.text value) (as_payload rest)
