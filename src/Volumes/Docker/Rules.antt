-- ===== src/Volumes/Docker/Rules.antt =====
-- Rules for programs that call Docker.
use optimizr_actions.Prelude.{
  ◌≡◌, refl, sym, subst, ap, ◌∙◌, ◌⊎◌, inl, inr, Bool, true, false, List, ◌∷◌, ◌++◌, Text, ok, err,
  if◌then◌else◌,
}
use optimizr_actions.Volumes.Contract.{Checked, ContractError}
use optimizr_actions.Volumes.Docker.{
  Engine, Docker, Command, Completed, Outcome, completed, timed_out, not_started, is_zero, answered,
  ◌>>=◌, lift, ask, ask_with, continue_with, arguments, docker_prefix,
}

-- A call that may be made where a property of the calls holds, and leaves it true.
abbrev pub Allows : (List Command → Type 0) → Command → Type 0
Allows I command = (calls : List Command) → I calls → I (command ∷ calls)

-- A program keeps a property of the calls.
pub record Keeps {A : Type 0} (I : List Command → Type 0) (program : Docker A) : Type 0 where
  pub keeps : (calls : List Command) → I calls → I (program calls).1

pub Keeps-lift : {A : Type 0} (I : List Command → Type 0) (r : Checked A) → Keeps I (lift r)
Keeps-lift I r = record { keeps = λ calls h. h }

pub Keeps-bind :
    {A B : Type 0} (I : List Command → Type 0) (first : Docker A) (next : A → Docker B)
    → Keeps I first
    → ((a : A) → Keeps I (next a))
    → Keeps I (first >>= next)
Keeps-bind {A = A} {B = B} I first next f n = record {
  keeps = λ calls h. go (first calls) (f.keeps calls h);
}
  where
    go : (r : Checked A × List Command) → I r.1 → I (continue_with next r).1
    go (ok a, later) k = (n a).keeps later k
    go (err e, later) k = k

pub keeps-ask :
    (engine : Engine) (I : List Command → Type 0) (command : Command) (calls : List Command)
    → I calls
    → I (command ∷ calls)
    → I (ask engine command calls).1
unfolding ask
keeps-ask engine I command calls h p =
    go (arguments engine command) (docker_prefix engine.environment)
  where
    go : (args prefix : Checked (List Text)) → I (ask_with engine args prefix command calls).1
    go (err e) prefix = h
    go (ok args) (err e) = h
    go (ok args) (ok prefix) = p

pub Keeps-ask :
    (engine : Engine) (I : List Command → Type 0) (command : Command)
    → Allows I command
    → Keeps I (ask engine command)
Keeps-ask engine I command p = record {
  keeps = λ calls h. keeps-ask engine I command calls h (p calls h);
}

-- A program that returned: its first part returned, and then the rest.
pub bind_ok :
    {A B : Type 0} (first : Docker A) (next : A → Docker B) (calls later : List Command) (b : B)
    → (first >>= next) calls ≡ (ok b, later)
    → (a : A) × (mid : List Command) × (first calls ≡ (ok a, mid)) × (next a mid ≡ (ok b, later))
bind_ok {A = A} {B = B} first next calls later b h = go (first calls) refl h
  where
    go :
        (r : Checked A × List Command)
        → first calls ≡ r
        → continue_with next r ≡ (ok b, later)
        → (a : A) × (mid : List Command) × (first calls ≡ (ok a, mid))
          × (next a mid ≡ (ok b, later))
    go (ok a, mid) e k = (a, mid, e, k)
    go (err x, mid) e k = absurd (cc)

pub run-cases :
    {A : Type 0} (r : Checked A × List Command)
    → ((e : ContractError) × (r.0 ≡ err e))
      ⊎ ((a : A) × (later : List Command) × (r ≡ (ok a, later)))
run-cases (ok a, later) = inr (a, later, refl)
run-cases (err e, later) = inl (e, refl)

pub Keeps-run :
    {A : Type 0} (I : List Command → Type 0) (program : Docker A) (calls later : List Command)
    (a : A)
    → Keeps I program
    → program calls ≡ (ok a, later)
    → I calls
    → I later
Keeps-run I program calls later a k e h = subst (I) (ap (λ r. r.1) e) (k.keeps calls h)

pub Keeps-if :
    {A : Type 0} (I : List Command → Type 0) (test : Bool) (a b : Docker A)
    → Keeps I a
    → Keeps I b
    → Keeps I (if test then a else b)
Keeps-if I true a b f g = f
Keeps-if I false a b f g = g

-- The same from given calls, where what follows may use that the first part returned.
pub keeps-bind :
    {A B : Type 0} (I : List Command → Type 0) (first : Docker A) (next : A → Docker B)
    (calls : List Command)
    → I (first calls).1
    → ((a : A) (later : List Command) → first calls ≡ (ok a, later) → I later → I (next a later).1)
    → I ((first >>= next) calls).1
keeps-bind {A = A} {B = B} I first next calls k n = go (first calls) refl k
  where
    go : (r : Checked A × List Command) → first calls ≡ r → I r.1 → I (continue_with next r).1
    go (ok a, later) e h = n a later e h
    go (err x, later) e h = h

pub Keeps-after :
    {A B : Type 0} (I : List Command → Type 0) (first : Docker A) (next : A → Docker B)
    → Keeps I first
    → ((a : A) (calls later : List Command) → first calls ≡ (ok a, later) → Keeps I (next a))
    → Keeps I (first >>= next)
Keeps-after I first next f n = record {
  keeps = λ calls h.
      keeps-bind I first next calls (f.keeps calls h)
        (λ a later e k. (n a calls later e).keeps later k);
}

-- What a program returns from these calls, with the calls that it then made, has a property.
pub record Ends {A : Type 0} (Q : A → List Command → Type 0) (program : Docker A)
    (calls : List Command) : Type 0 where
  pub ends : (a : A) (later : List Command) → program calls ≡ (ok a, later) → Q a later

pub Ends-bind :
    {A B : Type 0} (Q : B → List Command → Type 0) (first : Docker A) (next : A → Docker B)
    (calls : List Command)
    → ((a : A) (mid : List Command) → first calls ≡ (ok a, mid) → Ends Q (next a) mid)
    → Ends Q (first >>= next) calls
Ends-bind Q first next calls f = record {
  ends = λ b later h.
      let (a, mid, e, k) = bind_ok first next calls later b h in (f a mid e).ends b later k;
}

-- A check that passed is known in what follows, and makes no call.
pub Ends-check :
    {A B : Type 0} (Q : B → List Command → Type 0) (r : Checked A) (next : A → Docker B)
    (calls : List Command)
    → ((a : A) → r ≡ ok a → Ends Q (next a) calls)
    → Ends Q (lift r >>= next) calls
Ends-check Q r next calls f = Ends-bind Q (lift r) next calls (λ a mid e.
    let same_calls : calls ≡ mid = ap (λ x. x.1) e in
    subst (Ends Q (next a)) same_calls (f a (ap (λ x. x.0) e)))

pub Ends-ok :
    {A : Type 0} (Q : A → List Command → Type 0) (a : A) (calls : List Command)
    → Q a calls
    → Ends Q (lift (ok a)) calls
Ends-ok Q a calls q = record {
  ends = λ b later h.
      let same_value : a ≡ b = cc in
      let same_calls : calls ≡ later = cc in rw (← same_value, ← same_calls) q;
}

-- Docker answered this call, made after these, with success and with this text.
pub record IsAnswered (engine : Engine) (command : Command) (calls : List Command) (out : Text)
    : Type 0 where
  pub args : List Text
  pub prefix : List Text
  pub result : Completed
  pub built : arguments engine command ≡ ok args
  pub prefixed : docker_prefix engine.environment ≡ ok prefix
  pub ran : engine.run (prefix ++ args) calls ≡ completed result
  pub succeeded : is_zero result.returncode ≡ true
  pub printed : result.stdout ≡ out

-- A call that succeeds: what it asked, and that it is the last of the calls.
pub ask-IsAnswered :
    (engine : Engine) (command : Command) (calls later : List Command) (result : Completed)
    → ask engine command calls ≡ (ok result, later)
    → is_zero result.returncode ≡ true
    → IsAnswered engine command calls result.stdout × (later ≡ command ∷ calls)
unfolding ask
ask-IsAnswered engine command calls later result h z =
    go (arguments engine command) (docker_prefix engine.environment) refl refl h
  where
    outcome :
        (args prefix : List Text) (o : Outcome)
        → arguments engine command ≡ ok args
        → docker_prefix engine.environment ≡ ok prefix
        → engine.run (prefix ++ args) calls ≡ o
        → answered engine o ≡ ok result
        → IsAnswered engine command calls result.stdout
    outcome args prefix (completed r) a p e k = record {
      args = args;
      prefix = prefix;
      result = result;
      built = a;
      prefixed = p;
      ran = e ∙ ap completed (same_result r k);
      succeeded = z;
      printed = refl;
    }
      where
        same_result : (r : Completed) → Path (Checked Completed) (ok r) (ok result) → r ≡ result
        same_result r k = cc
    outcome args prefix timed_out a p e k = absurd cc
    outcome args prefix not_started a p e k = absurd cc

    go :
        (args prefix : Checked (List Text))
        → arguments engine command ≡ args
        → docker_prefix engine.environment ≡ prefix
        → ask_with engine args prefix command calls ≡ (ok result, later)
        → IsAnswered engine command calls result.stdout × (later ≡ command ∷ calls)
    go (err e) prefix a p k = absurd (cc)
    go (ok args) (err e) a p k = absurd (cc)
    go (ok args) (ok prefix) a p k = (
      outcome args prefix (engine.run (prefix ++ args) calls) a p refl (ap (λ x. x.0) k),
      sym (ap (λ x. x.1) k),
    )
