-- ===== src/Delivery/Request/RoundTrip.antt =====
-- A request that was accepted is accepted again from its canonical form.
use optimizr_actions.Prelude.{
  ℕ, ◌≡◌, refl, subst, sym, ap, ◌∙◌, Bool, true, false, not, ◌||◌, ◌==◌, ltb, length, any, strip,
  member, Option, none, some, Text, codes, ok, err, ◌>>=◌, ◌>>◌, bind_then, seq_then, guard,
  raise_if, raise_if_then, same, arith, or_raise,
}
use optimizr_actions.Prelude.Regex.{search}
use optimizr_actions.Prelude.Json.{Json, Fields, get}
use optimizr_actions.Delivery.Request.{
  DeployRequest, RequestError, Parsed, text_value, trimmed, text_of, check_identifier, check_ref,
  check_compose_file, check_repository, check_sha, check_adapter, check_reason, parse_reason,
  parse_request, canonicalize_request, as_payload, reason_field, unknown_keys, raise_unknown,
  partition, is_blank, secret_assignment, not_trimmed, reason_not_bounded, reason_not_line,
  reason_secret, repository_not_owner_name, ref_not_trusted, compose_not_relative, not_bounded,
}

guarded :
    (test : Bool) (failure : RequestError) (v : Text) {w : Text}
    → (guard test failure >> ok v) ≡ ok w
    → w ≡ v
guarded false failure v h = cc
guarded true failure v h = cc

excluded :
    (test : Bool) (failure : RequestError) (v : Text) {w : Text}
    → (raise_if test failure >> ok v) ≡ ok w
    → w ≡ v
excluded false failure v h = cc
excluded true failure v h = cc

-- A check that returns its argument.
abbrev pub Checks : (Text → Parsed Text) → Type 0
Checks check = (v w : Text) → check v ≡ ok w → w ≡ v

check_identifier-Checks : (subject : Text) → Checks (λ v. check_identifier v subject)
unfolding check_identifier
check_identifier-Checks subject v w h = ground arith

check_sha-Checks : Checks check_sha
unfolding check_sha
check_sha-Checks v w h = ground arith

check_ref-Checks : Checks check_ref
unfolding check_ref
check_ref-Checks v w h = guarded _ ref_not_trusted v h

check_compose_file-Checks : Checks check_compose_file
unfolding check_compose_file
check_compose_file-Checks v w h = excluded _ compose_not_relative v h

check_adapter-Checks : Checks check_adapter
unfolding check_adapter
check_adapter-Checks v w h = ground arith

check_repository-Checks : Checks check_repository
unfolding check_repository
check_repository-Checks v w h =
    let (parts, _, h₁) = bind_then (or_raise (partition b'/' v) repository_not_owner_name) _ h in
    let (_, h₂) = raise_if_then _ repository_not_owner_name _ h₁ in
    let (_, _, h₃) = bind_then (check_identifier parts.0 (codes "repository owner")) _ h₂ in
    let (_, _, h₄) = bind_then (check_identifier parts.1 (codes "repository name")) _ h₃ in
    guarded true repository_not_owner_name v h₄

trimmed-eq : (key : Text) (maximum : ℕ) (v w : Text) → trimmed key v maximum ≡ ok w → w ≡ v
unfolding trimmed
trimmed-eq key maximum v w h =
    let (_, h₁) = raise_if_then _ (not_trimmed key) _ h in excluded _ (not_bounded key) v h₁

abbrev as_value : Option Text → Option Json
as_value none = none
as_value (some reason) = some (Json.text reason)

check_reason-eq : (s : Text) (reason : Option Text) → check_reason s ≡ ok reason → reason ≡ some s
unfolding check_reason
check_reason-eq s reason h =
    let (_, h₁) = raise_if_then (is_blank s || ltb 256 (length s)) reason_not_bounded _ h in
    let (_, h₂) =
      raise_if_then (not (same s (strip s)) || any (λ c. c == 13 || c == 10) s) reason_not_line _
        h₁ in
    let (_, h₃) = raise_if_then (search secret_assignment s) reason_secret (ok (some s)) h₂ in
    sym (ap (reason_or reason) h₃)
  where
    reason_or : Option Text → Parsed (Option Text) → Option Text
    reason_or d (ok r) = r
    reason_or d (err e) = d

checked_again :
    (key : Text) (maximum : ℕ) (check : Text → Parsed Text) (u t v : Text)
    → v ≡ t
    → t ≡ u
    → trimmed key u maximum ≡ ok t
    → check t ≡ ok v
    → (trimmed key v maximum >>= check) ≡ ok v
checked_again key maximum check u t v p q r c =
    let accepted : trimmed key v maximum ≡ ok t = rw (p, q) (r ∙ ap ok q) in rw accepted c

-- A field that was read and checked is read and checked again from any payload that holds its value.
again :
    (payload other : Fields) (key : Text) (maximum : ℕ) (check : Text → Parsed Text) (v : Text)
    → Checks check
    → (text_of payload key maximum >>= check) ≡ ok v
    → get other key ≡ some (Json.text v)
    → (text_of other key maximum >>= check) ≡ ok v
unfolding text_of
again payload other key maximum check v checks h e =
    let (t, r, c) = bind_then (text_of payload key maximum) check h in
    let (u, _, s) = bind_then (or_raise (text_value (get payload key)) (not_trimmed key)) _ r in
    let t_eq = checks t v c in
    let u_eq = trimmed-eq key maximum u t s in
    rw e (checked_again key maximum check u t v t_eq u_eq s c)

reason_again :
    (value : Option Json) (reason : Option Text)
    → parse_reason value ≡ ok reason
    → parse_reason (as_value reason) ≡ ok reason
unfolding parse_reason
reason_again none reason h = let e : reason ≡ none = cc in rw e refl
reason_again (some Json.null) reason h = let e : reason ≡ none = cc in rw e refl
reason_again (some (Json.bool b)) reason h = cc
reason_again (some (Json.int n)) reason h = cc
reason_again (some (Json.decimal m k)) reason h = cc
reason_again (some (Json.array xs)) reason h = cc
reason_again (some (Json.object xs)) reason h = cc
reason_again (some (Json.text s)) reason h =
    let e = check_reason-eq s reason h in rw e (h ∙ ap ok e)

-- What each part of `parse_request` gave.
record Filled (payload : Fields) (r : DeployRequest) : Type 0 where
  repository : (text_of payload (codes "repository") 129 >>= check_repository) ≡ ok r.repository
  service :
      (text_of payload (codes "service") 256 >>= λ s. check_identifier s (codes "service"))
      ≡ ok r.service
  candidate_sha : (text_of payload (codes "candidate_sha") 256 >>= check_sha) ≡ ok r.candidate_sha
  trusted_ref : (text_of payload (codes "trusted_ref") 256 >>= check_ref) ≡ ok r.trusted_ref
  compose_file :
      (text_of payload (codes "compose_file") 256 >>= check_compose_file) ≡ ok r.compose_file
  container_name :
      (text_of payload (codes "container_name") 256 >>= λ s.
      check_identifier s (codes "container_name"))
      ≡ ok r.container_name
  adapter : (text_of payload (codes "adapter") 256 >>= check_adapter) ≡ ok r.adapter
  reason : parse_reason (get payload (codes "reason")) ≡ ok r.reason

filled : (payload : Fields) (r q : DeployRequest) → Filled payload q → q ≡ r → Filled payload r
filled payload r q f e = subst (Filled payload) e f

abbrev request_or : DeployRequest → Parsed DeployRequest → DeployRequest
request_or d (ok r) = r
request_or d (err e) = d

parse_request-Filled :
    (payload : Fields) (r : DeployRequest) → parse_request payload ≡ ok r → Filled payload r
unfolding parse_request
parse_request-Filled payload r h =
    let (_, h₀) = seq_then (raise_unknown (unknown_keys payload)) _ h in
    let (a, e₁, h₁) =
      bind_then (text_of payload (codes "repository") 129 >>= check_repository) _ h₀ in
    let (b, e₂, h₂) =
      bind_then
        (text_of payload (codes "service") 256 >>= λ s. check_identifier s (codes "service")) _
        h₁ in
    let (c, e₃, h₃) = bind_then (text_of payload (codes "candidate_sha") 256 >>= check_sha) _ h₂ in
    let (d, e₄, h₄) = bind_then (text_of payload (codes "trusted_ref") 256 >>= check_ref) _ h₃ in
    let (e, e₅, h₅) =
      bind_then (text_of payload (codes "compose_file") 256 >>= check_compose_file) _ h₄ in
    let (f, e₆, h₆) =
      bind_then
        (text_of payload (codes "container_name") 256 >>= λ s.
          check_identifier s (codes "container_name"))
        _ h₅ in
    let (g, e₇, h₇) = bind_then (text_of payload (codes "adapter") 256 >>= check_adapter) _ h₆ in
    let (k, e₈, h₈) = bind_then (parse_reason (get payload (codes "reason"))) _ h₇ in
    filled payload r _
      (record {
        repository = e₁;
        service = e₂;
        candidate_sha = e₃;
        trusted_ref = e₄;
        compose_file = e₅;
        container_name = e₆;
        adapter = e₇;
        reason = e₈;
      })
      (ap (request_or r) h₈)

-- The canonical form holds each field under its name, and no other.
canonical_reason :
    (r : DeployRequest)
    → get (as_payload (canonicalize_request r)) (codes "reason") ≡ as_value r.reason
unfolding canonicalize_request get same
canonical_reason r = go r.reason
  where
    go :
        (reason : Option Text)
        → get (as_payload (reason_field reason)) (codes "reason") ≡ as_value reason
    go none = refl
    go (some s) = refl

canonical_known :
    (r : DeployRequest) → raise_unknown (unknown_keys (as_payload (canonicalize_request r))) ≡ ok tt
unfolding canonicalize_request unknown_keys raise_unknown member same
canonical_known r = go r.reason
  where
    go :
        (reason : Option Text)
        → raise_unknown (unknown_keys (as_payload (reason_field reason))) ≡ ok tt
    go none = refl
    go (some s) = refl

record Holds (r : DeployRequest) (p : Fields) : Type 0 where
  repository : get p (codes "repository") ≡ some (Json.text r.repository)
  service : get p (codes "service") ≡ some (Json.text r.service)
  candidate_sha : get p (codes "candidate_sha") ≡ some (Json.text r.candidate_sha)
  trusted_ref : get p (codes "trusted_ref") ≡ some (Json.text r.trusted_ref)
  compose_file : get p (codes "compose_file") ≡ some (Json.text r.compose_file)
  container_name : get p (codes "container_name") ≡ some (Json.text r.container_name)
  adapter : get p (codes "adapter") ≡ some (Json.text r.adapter)

holds : (r : DeployRequest) → Holds r (as_payload (canonicalize_request r))
unfolding canonicalize_request get same
holds r = record {
  repository = refl;
  service = refl;
  candidate_sha = refl;
  trusted_ref = refl;
  compose_file = refl;
  container_name = refl;
  adapter = refl;
}

-- A request that parse_request accepts is what parse_request reads from its canonical form.
pub parse_request-canonicalize_request :
    (payload : Fields) (request : DeployRequest)
    → parse_request payload ≡ ok request
    → parse_request (as_payload (canonicalize_request request)) ≡ ok request
unfolding parse_request
parse_request-canonicalize_request payload r h =
    let f = parse_request-Filled payload r h in
    let p = as_payload (canonicalize_request r) in
    let h = holds r in
    rw
      (
        canonical_known r,
        again payload p (codes "repository") 129 check_repository r.repository
            check_repository-Checks f.repository h.repository,
        again payload p (codes "service") 256 (λ s. check_identifier s (codes "service")) r.service
            (check_identifier-Checks (codes "service")) f.service h.service,
        again payload p (codes "candidate_sha") 256 check_sha r.candidate_sha check_sha-Checks
            f.candidate_sha h.candidate_sha,
        again payload p (codes "trusted_ref") 256 check_ref r.trusted_ref check_ref-Checks
            f.trusted_ref h.trusted_ref,
        again payload p (codes "compose_file") 256 check_compose_file r.compose_file
            check_compose_file-Checks f.compose_file h.compose_file,
        again payload p (codes "container_name") 256
            (λ s. check_identifier s (codes "container_name")) r.container_name
            (check_identifier-Checks (codes "container_name")) f.container_name h.container_name,
        again payload p (codes "adapter") 256 check_adapter r.adapter check_adapter-Checks f.adapter
            h.adapter,
        canonical_reason r,
        reason_again (get payload (codes "reason")) r.reason f.reason,
      )
      refl
