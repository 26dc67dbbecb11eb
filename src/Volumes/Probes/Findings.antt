-- ===== src/Volumes/Probes/Findings.antt =====
-- What the inspection of a container shows where the checks before a probe pass.
use optimizr_actions.Prelude.{
  ◌≡◌, refl, subst, ap, ◌∙◌, Bool, true, Option, none, some, List, [], ◌∷◌, ◌++◌, Text, codes,
  same_sound, member, ok, or_raise, bind_then, guard, guard_then, raise_if_then, and_right, arith,
}
use optimizr_actions.Prelude.Json.{
  Json, Fields, Items, object, array, text, bool, int, decimal, null, get, object_of, array_of,
  elements,
}
use optimizr_actions.Volumes.Contract.{Checked, ContractError}
use optimizr_actions.Volumes.Resources.{is_text, single_object, array_values}
use optimizr_actions.Volumes.Probes.Checks.{
  text_of, is_true, object_or, parse_inspected_container, container_id_of, running_of,
  check_container, is_requested, service_of,
}

-- The only element that was inspected.
abbrev pub IsSingle : Option Json → Fields → Type 0
IsSingle value container =
    (items : Items) × (value ≡ some (array items)) × (elements items ≡ object container ∷ [])

abbrev pub IsRequested : Option (List Text) → Text → Type 0
IsRequested none service = Unit
IsRequested (some services) service = member service services ≡ true

pub value_of :
    {A : Type 0} (o : Option A) (e : ContractError) {a : A} → or_raise o e ≡ ok a → o ≡ some a
value_of none e h = absurd cc
value_of (some b) e h = cc

text_of-some : (v : Option Json) {s : Text} → text_of v ≡ some s → v ≡ some (text s)
text_of-some v h = ground arith

pub object_of-some : (v : Option Json) {o : Fields} → object_of v ≡ some o → v ≡ some (object o)
object_of-some v h = ground arith

pub array_of-some :
    (v : Json) {vs : List Json}
    → array_of v ≡ some vs
    → (items : Items) × (v ≡ array items) × (elements items ≡ vs)
unfolding array_of
array_of-some (array items) h = (items, refl, cc)
array_of-some (object o) h = absurd cc
array_of-some (text s) h = absurd cc
array_of-some (bool b) h = absurd cc
array_of-some (int i) h = absurd cc
array_of-some (decimal m e) h = absurd cc
array_of-some null h = absurd cc

pub is_true_sound : (v : Option Json) → is_true v ≡ true → v ≡ some (bool true)
is_true_sound v h = ground arith

pub is_text_sound : (s : Text) (v : Option Json) → is_text s v ≡ true → v ≡ some (text s)
unfolding is_text
is_text_sound s (some (text t)) h = ap (λ x. some (text x)) (same_sound t s h)
is_text_sound s none h = absurd cc
is_text_sound s (some (object o)) h = absurd cc
is_text_sound s (some (array a)) h = absurd cc
is_text_sound s (some (bool b)) h = absurd cc
is_text_sound s (some (int i)) h = absurd cc
is_text_sound s (some (decimal m e)) h = absurd cc
is_text_sound s (some null) h = absurd cc

single_object-some : (vs : List Json) {o : Fields} → single_object vs ≡ some o → vs ≡ object o ∷ []
single_object-some vs h = ground arith

pub parse_inspected_container-IsSingle :
    (v : Option Json) {container : Fields}
    → parse_inspected_container v ≡ ok container
    → IsSingle v container
unfolding parse_inspected_container array_values array_of
parse_inspected_container-IsSingle none h = absurd cc
parse_inspected_container-IsSingle (some (array items)) h =
    (items, refl, single_object-some (elements items) (value_of _ _ h))
parse_inspected_container-IsSingle (some (object o)) h = absurd cc
parse_inspected_container-IsSingle (some (text s)) h = absurd cc
parse_inspected_container-IsSingle (some (bool b)) h = absurd cc
parse_inspected_container-IsSingle (some (int i)) h = absurd cc
parse_inspected_container-IsSingle (some (decimal m e)) h = absurd cc
parse_inspected_container-IsSingle (some null) h = absurd cc

same_value : {A : Type 0} {x y : A} → Path (Checked A) (ok x) (ok y) → x ≡ y
same_value e = cc

pub container_id_of-listed :
    (container : Fields) (ids : List Text) {id : Text}
    → container_id_of container ids ≡ ok id
    → (get container (codes "Id") ≡ some (text id)) × (member id ids ≡ true)
unfolding container_id_of
container_id_of-listed container ids {id} h =
    let (found, e, h₁) = bind_then (or_raise (text_of (get container (codes "Id"))) _) _ h in
    let (test, h₂) = guard_then _ _ _ h₁ in
    let same_id : found ≡ id = same_value h₂ in
    rw (← same_id) (text_of-some _ (value_of _ _ e), and_right _ _ test)

running_of-some :
    (v : Option Json) {b : Json}
    → running_of v ≡ some b
    → (state : Fields) × (v ≡ some (object state)) × (get state (codes "Running") ≡ some b)
unfolding running_of
running_of-some (some (object state)) h = (state, refl, h)
running_of-some none h = absurd cc
running_of-some (some (array a)) h = absurd cc
running_of-some (some (text s)) h = absurd cc
running_of-some (some (bool b)) h = absurd cc
running_of-some (some (int i)) h = absurd cc
running_of-some (some (decimal m e)) h = absurd cc
running_of-some (some null) h = absurd cc

pub check_container-runs :
    (container : Fields) (name : Text)
    → check_container container name ≡ ok tt
    → (get container (codes "Name") ≡ some (text (codes "/" ++ name)))
      × ((state : Fields) × (get container (codes "State") ≡ some (object state))
          × (get state (codes "Running") ≡ some (bool true)))
unfolding check_container
check_container-runs container name h =
    let (named, h₁) = guard_then _ _ _ h in
    (is_text_sound (codes "/" ++ name) _ named, running_of-some _ (is_true_sound _ (passed _ _ h₁)))
  where
    passed : (test : Bool) (e : ContractError) → guard test e ≡ ok tt → test ≡ true
    passed test e k = ground arith

pub service_of-IsRequested :
    (config : Fields) (expected : Option (List Text)) {service : Text}
    → service_of config expected ≡ ok service
    → (labels : Fields) × (get config (codes "Labels") ≡ some (object labels))
      × (get labels (codes "com.docker.compose.service") ≡ some (text service))
      × IsRequested expected service
unfolding service_of is_requested
service_of-IsRequested config expected {service} h =
    let (labels, e₁, h₁) = bind_then (object_or _ (get config (codes "Labels"))) _ h in
    let (found, e₂, h₂) =
      bind_then (or_raise (text_of (get labels (codes "com.docker.compose.service"))) _) _ h₁ in
    let (_, h₃) = guard_then _ _ _ h₂ in
    let (asked, h₄) = guard_then (is_requested expected found) _ _ h₃ in
    let (_, h₅) = raise_if_then _ _ _ h₄ in
    let same_service : found ≡ service = same_value h₅ in
    (
      labels,
      object_of-some _ (value_of _ _ e₁),
      text_of-some _ (value_of _ _ e₂) ∙ ap (λ s. some (text s)) same_service,
      subst (IsRequested expected) same_service (go expected found asked),
    )
  where
    go : (o : Option (List Text)) (s : Text) → is_requested o s ≡ true → IsRequested o s
    go none s k = tt
    go (some services) s k = k
