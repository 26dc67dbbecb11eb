-- ===== src/Delivery/Request/Examples.antt =====
-- A request of the GitHub adapter, and some that are refused.
use optimizr_actions.Prelude.{◌≡◌, refl, ok, err, some, [], ◌∷◌, Text, codes, replicate}
use optimizr_actions.Prelude.Json.{Json, Fields, to_fields}
use optimizr_actions.Delivery.Request.{
  DeployRequest, ref_not_trusted, compose_not_relative, reason_secret, parse_request, check_ref,
  check_compose_file, check_reason, canonicalize_request, as_payload,
}
use optimizr_actions.Delivery.Request.RoundTrip.{parse_request-canonicalize_request}

program : Unit {0}
unfolding parse_request check_ref check_compose_file check_reason canonicalize_request
program = tt

abbrev sha : Text
sha = replicate 40 b'a'

abbrev payload : Fields
payload = to_fields (
    (codes "trusted_ref", Json.text (codes "refs/tags/v1"))
    ∷ (codes "repository", Json.text (codes "optimizr-tech/app"))
    ∷ (codes "service", Json.text (codes "api"))
    ∷ (codes "candidate_sha", Json.text sha)
    ∷ (codes "compose_file", Json.text (codes "deploy/compose.yml"))
    ∷ (codes "container_name", Json.text (codes "api-1"))
    ∷ (codes "adapter", Json.text (codes "manual"))
    ∷ (codes "reason", Json.text (codes "roll out"))
    ∷ [])

abbrev request : DeployRequest
request = record {
  repository = codes "optimizr-tech/app";
  service = codes "api";
  candidate_sha = sha;
  trusted_ref = codes "refs/tags/v1";
  compose_file = codes "deploy/compose.yml";
  container_name = codes "api-1";
  adapter = codes "manual";
  reason = some (codes "roll out");
}

parsed : parse_request payload ≡ ok request
unfolding program
parsed = refl

unsafe_ref : check_ref (codes "refs/heads/../x") ≡ err ref_not_trusted
unfolding program
unsafe_ref = refl

unsafe_compose : check_compose_file (codes "a/../compose.yml") ≡ err compose_not_relative
unfolding program
unsafe_compose = refl

secret_reason : check_reason (codes "set API_KEY = x") ≡ err reason_secret
unfolding program
secret_reason = refl

parse_request-canonicalize_request_example :
    parse_request (as_payload (canonicalize_request request)) ≡ ok request
parse_request-canonicalize_request_example =
    parse_request-canonicalize_request payload request parsed
