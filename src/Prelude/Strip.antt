-- ===== src/Prelude/Strip.antt =====
-- Python's `strip` and `replace`.
use Prim.Native.Nat.{ℕ, zero, suc, ◌-◌}
use Prim.Native.Char.{Char, code}
use Prim.Native.String.{String, ◌++◌ as ◌+++◌, count}
use opsiconfd.Prelude.Tests.{leb, eqb, if◌then◌else◌}
use mathlib.Core.Path.{◌≡◌, refl}
use mathlib.Core.Bool.{Bool, ◌&&◌, ◌||◌}
use text.Mathlib.Text.{◌==◌, starts_with}

-- `c.isspace()`
abbrev is_space : Char → Bool
is_space c =
    let n = code c in
    (leb 9 n && leb n 13)
    || (leb 28 n && leb n 32)
    || eqb n 133
    || eqb n 160
    || eqb n 5760
    || (leb 8192 n && leb n 8202)
    || eqb n 8232
    || eqb n 8233
    || eqb n 8239
    || eqb n 8287
    || eqb n 12288

-- `s.lstrip()` and `s.rstrip()`
unfoldable pub strip_start : String → String
strip_start String.[] = String.[]
strip_start (String.◌∷◌ c s) =
    let rest = strip_start s in if is_space c then rest else String.◌∷◌ c s

unfoldable pub strip_rest : String → String
strip_rest String.[] = String.[]
strip_rest (String.◌∷◌ c s) =
    let rest = strip_rest s in if is_space c && rest == "" then String.[] else String.◌∷◌ c rest

-- `s.strip()`
unfoldable pub strip : String → String
strip s = strip_rest (strip_start s)

-- `s.replace(old, new)`, behind the next characters, which belong to a place that was replaced.
unfoldable pub replace_from : String → String → ℕ → String → String
replace_from old new n String.[] = String.[]
replace_from old new zero (String.◌∷◌ c s) =
    let behind = replace_from old new (count old - 1) s in
    let next = replace_from old new zero s in
    if starts_with (String.◌∷◌ c s) old then new +++ behind else String.◌∷◌ c next
replace_from old new (suc n) (String.◌∷◌ c s) = replace_from old new n s

abbrev pub replace : String → String → String → String
replace old new s = replace_from old new 0 s

stripped : strip "  a b \t" ≡ "a b"
unfolding strip strip_start strip_rest
stripped = refl

replaced : replace "{g}" "x" "a{g}{g" ≡ "ax{g"
unfolding replace_from
replaced = refl
