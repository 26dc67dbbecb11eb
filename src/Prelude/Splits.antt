-- ===== src/Prelude/Splits.antt =====
-- How Python's `str` splits and encodes.
use Prim.Native.Nat.{ℕ, ◌+◌}
use mathlib.Core.Bool.{Bool, false, ◌&&◌, ◌||◌}
use mathlib.Core.List.{List, [], ◌∷◌}
use mathlib.Core.Option.{Option, none, some}
use optimizr_actions.Prelude.Tests.{ltb, leb, ◌==◌, if◌then◌else◌}
use optimizr_actions.Prelude.Strings.{Text, is_space}

-- `d` in front of the first part
abbrev pub prepend : ℕ → List Text → List Text
prepend d [] = (d ∷ []) ∷ []
prepend d (part ∷ parts) = (d ∷ part) ∷ parts

-- The parts between the characters that pass the test.
unfoldable pub split_by : (ℕ → Bool) → Text → List Text
split_by test [] = [] ∷ []
split_by test (d ∷ s) =
    let parts = split_by test s in if test d then [] ∷ parts else prepend d parts

-- `value.split(…)` at one character
unfoldable pub split : ℕ → Text → List Text
unfolding split_by
split c s = split_by (λ d. d == c) s

abbrev pub drop_blank : List Text → List Text
drop_blank [] = []
drop_blank ([] ∷ parts) = drop_blank parts
drop_blank ((c ∷ s) ∷ parts) = (c ∷ s) ∷ drop_blank parts

-- `value.split()`
unfoldable pub words : Text → List Text
unfolding split_by is_space
words s = drop_blank (split_by is_space s)

unfoldable pub is_break : ℕ → Bool
is_break c = leb 10 c && leb c 13 || leb 28 c && leb c 30 || c == 0x85 || c == 0x2028 || c == 0x2029

abbrev pub is_newline_first : Text → Bool
is_newline_first [] = false
is_newline_first (c ∷ s) = c == 10

-- A carriage return before a newline counts with it.
unfoldable pub segments : Text → List Text
unfolding is_break
segments [] = [] ∷ []
segments (c ∷ s) =
    let parts = segments s in
    if (c == 13) && is_newline_first s
    then parts
    else if is_break c
    then [] ∷ parts
    else prepend c parts

abbrev pub drop_last_blank : List Text → List Text
drop_last_blank [] = []
drop_last_blank ([] ∷ []) = []
drop_last_blank ([] ∷ part ∷ parts) = [] ∷ drop_last_blank (part ∷ parts)
drop_last_blank ((c ∷ s) ∷ parts) = (c ∷ s) ∷ drop_last_blank parts

-- `value.splitlines()`
unfoldable pub splitlines : Text → List Text
unfolding segments
splitlines s = drop_last_blank (segments s)

abbrev pub utf8_width : ℕ → ℕ
utf8_width c = if ltb c 0x80 then 1 else if ltb c 0x800 then 2 else if ltb c 0x10000 then 3 else 4

-- `len(value.encode("utf-8"))`, which fails on a surrogate
unfoldable pub utf8_size : Text → Option ℕ
utf8_size [] = some 0
utf8_size (c ∷ s) =
    let rest = utf8_size s in
    if leb 0xd800 c && leb c 0xdfff
    then none
    else elim rest [ none ↦ none | some n ↦ some (utf8_width c + n) ]
