-- ===== src/Prelude/Regex.antt =====
-- Regular expressions as the scripts use Python's `re`: whether a text matches, not the groups.
-- `ends` lists every position at which a match that begins at the given position may end, so a
-- pattern matches exactly when backtracking finds a way.
use Prim.Native.Nat.{ℕ, zero, suc}
use mathlib.Core.Bool.{Bool, true, false, ◌&&◌, ◌||◌, not, xor}
use mathlib.Core.List.{List, [], ◌∷◌, ◌++◌}
use mathlib.Core.Option.{Option, none, some}
use optimizr_actions.Prelude.Tests.{ltb, leb, ◌==◌, if◌then◌else◌}
use optimizr_actions.Prelude.Lists.{length, any}
use optimizr_actions.Prelude.Strings.{Text, lower}

-- `start` is `^` and `finish` is `$`, without MULTILINE. `boundary` is `\b`, by the test for `\w`.
pub data Regex : Type 0 where
  one : (ℕ → Bool) → Regex
  empty start finish : Regex
  boundary : (ℕ → Bool) → Regex
  seq alt : Regex → Regex → Regex
  star : Regex → Regex

-- The character before the position, and the text after it.
pub record Position : Type 0 where
  pub before : Option ℕ
  pub rest : Text

abbrev pub head_test : (ℕ → Bool) → Option ℕ → Bool
head_test p none = false
head_test p (some c) = p c

abbrev pub first : Text → Option ℕ
first [] = none
first (c ∷ s) = some c

abbrev pub is_none : Option ℕ → Bool
is_none none = true
is_none (some _) = false

-- `$` stands at the end, or before a newline that ends the text.
abbrev pub at_end : Text → Bool
at_end [] = true
at_end (c ∷ []) = c == 10
at_end (c ∷ d ∷ s) = false

unfoldable pub step : (ℕ → Bool) → Text → List Position
step p [] = []
step p (c ∷ s) = if p c then record { before = some c; rest = s } ∷ [] else []

unfoldable pub each : (Position → List Position) → List Position → List Position
each f [] = []
each f (x ∷ xs) = f x ++ each f xs

unfoldable pub shorter : ℕ → List Position → List Position
shorter n [] = []
shorter n (x ∷ xs) =
    let others = shorter n xs in if ltb (length x.rest) n then x ∷ others else others

-- A round that consumes nothing adds no end, so the length of the text bounds the rounds.
unfoldable pub repeat : (Position → List Position) → ℕ → Position → List Position
unfolding each shorter
repeat f zero x = x ∷ []
repeat f (suc fuel) x = x ∷ each (repeat f fuel) (shorter (length x.rest) (f x))

unfoldable pub ends : Regex → Position → List Position
unfolding step each repeat xor
ends (one p) x = step p x.rest
ends empty x = x ∷ []
ends start x = if is_none x.before then x ∷ [] else []
ends finish x = if at_end x.rest then x ∷ [] else []
ends (boundary is_word) x =
    if xor (head_test is_word x.before) (head_test is_word (first x.rest)) then x ∷ [] else []
ends (seq r q) x = each (ends q) (ends r x)
ends (alt r q) x = ends r x ++ ends q x
ends (star r) x = repeat (ends r) (length x.rest) x

abbrev pub is_empty : {A : Type 0} → List A → Bool
is_empty [] = true
is_empty (_ ∷ _) = false

-- `pattern.fullmatch(s) is not None`
unfoldable pub fullmatch : Regex → Text → Bool
unfolding ends
fullmatch r s = any (λ x. is_empty x.rest) (ends r (record { before = none; rest = s }))

-- `pattern.match(s) is not None`
unfoldable pub match_start : Regex → Text → Bool
unfolding ends
match_start r s = not (is_empty (ends r (record { before = none; rest = s })))

unfoldable pub search_from : Regex → Option ℕ → Text → Bool
unfolding ends
search_from r before [] = not (is_empty (ends r (record { before = before; rest = [] })))
search_from r before (c ∷ s) =
    not (is_empty (ends r (record { before = before; rest = c ∷ s }))) || search_from r (some c) s

-- `pattern.search(s) is not None`
unfoldable pub search : Regex → Text → Bool
unfolding search_from
search r s = search_from r none s

-- Patterns by what they are written with.
abbrev pub exactly : Text → Regex
exactly [] = empty
exactly (c ∷ []) = one (λ d. d == c)
exactly (c ∷ d ∷ s) = seq (one (λ e. e == c)) (exactly (d ∷ s))

-- Under IGNORECASE an ASCII letter also matches its other case and, as Python folds them, the dotted
-- and dotless i, the long s and the Kelvin sign.
unfoldable pub fold : ℕ → ℕ
unfolding lower
fold c =
    if (c == 0x130) || (c == 0x131)
    then b'i'
    else if c == 0x17f
    then b's'
    else if c == 0x212a
    then b'k'
    else lower c

-- A text in lower case under IGNORECASE.
abbrev pub folded : Text → Regex
folded [] = empty
folded (c ∷ []) = one (λ d. fold d == c)
folded (c ∷ d ∷ s) = seq (one (λ e. fold e == c)) (folded (d ∷ s))

abbrev pub opt : Regex → Regex
opt r = alt r empty

abbrev pub plus : Regex → Regex
plus r = seq r (star r)

-- `r{n}` and `r{0,n}`
abbrev pub times : ℕ → Regex → Regex
times zero r = empty
times (suc n) r = seq r (times n r)

abbrev pub up_to : ℕ → Regex → Regex
up_to zero r = empty
up_to (suc n) r = opt (seq r (up_to n r))

abbrev pub alts : List Regex → Regex
alts [] = one (λ c. false)
alts (r ∷ []) = r
alts (r ∷ q ∷ rs) = alt r (alts (q ∷ rs))

abbrev pub seqs : List Regex → Regex
seqs [] = empty
seqs (r ∷ []) = r
seqs (r ∷ q ∷ rs) = seq r (seqs (q ∷ rs))

abbrev pub between : ℕ → ℕ → ℕ → Bool
between lo hi c = leb lo c && leb c hi

-- `[A-Za-z0-9]`
abbrev pub is_ascii_alnum : ℕ → Bool
is_ascii_alnum c = between b'A' b'Z' c || between b'a' b'z' c || between b'0' b'9' c
