-- ===== src/Prelude/Split.antt =====
-- Python's `split`, `rsplit` and `count` at a single character.
pub mod Laws
use Prim.Native.Nat.{ℕ, zero, suc}
use Prim.Native.Char.{Char, code}
use Prim.Native.String.{String}
use opsiconfd.Prelude.Tests.{eqb, if◌then◌else◌}
use mathlib.Core.Bool.{Bool, true, false, ◌&&◌}
use text.Mathlib.Text.{◌==◌}
use mathlib.Core.List.{List, [], ◌∷◌}
use mathlib.Core.Option.{Option, none, some}

abbrev pub is_char : ℕ → Char → Bool
is_char k c = eqb (code c) k

-- `s.split(k, 1)`, where `k` occurs: the text before it and the text behind it.
unfoldable pub cut : ℕ → String → Option (String × String)
cut k String.[] = none
cut k (String.◌∷◌ c s) =
    let rest = cut k s in
    if is_char k c
    then some (String.[], s)
    else elim rest [ none ↦ none | some (a, b) ↦ some (String.◌∷◌ c a, b) ]

-- `s.rsplit(k, 1)`, where `k` occurs.
unfoldable pub cut_last : ℕ → String → Option (String × String)
cut_last k String.[] = none
cut_last k (String.◌∷◌ c s) = elim (cut_last k s) [
  | some (a, b) ↦ some (String.◌∷◌ c a, b)
  | none ↦ if is_char k c then some (String.[], s) else none
]

-- `s.count(k)`
unfoldable pub count_char : ℕ → String → ℕ
count_char k String.[] = 0
count_char k (String.◌∷◌ c s) = let n = count_char k s in if is_char k c then suc n else n

abbrev put_first : Char → List String → List String
put_first c [] = String.◌∷◌ c String.[] ∷ []
put_first c (s ∷ ss) = String.◌∷◌ c s ∷ ss

-- `s.split(k)`
unfoldable pub split : ℕ → String → List String
split k String.[] = String.[] ∷ []
split k (String.◌∷◌ c s) =
    let rest = split k s in if is_char k c then String.[] ∷ rest else put_first c rest

-- `s.rstrip(k)`
unfoldable pub strip_end : ℕ → String → String
strip_end k String.[] = String.[]
strip_end k (String.◌∷◌ c s) =
    let rest = strip_end k s in if is_char k c && rest == "" then String.[] else String.◌∷◌ c rest

-- `s[:n]` and `s[n:]`
unfoldable pub take_text : ℕ → String → String
take_text zero s = String.[]
take_text (suc n) String.[] = String.[]
take_text (suc n) (String.◌∷◌ c s) = String.◌∷◌ c (take_text n s)

unfoldable pub drop_text : ℕ → String → String
drop_text zero s = s
drop_text (suc n) String.[] = String.[]
drop_text (suc n) (String.◌∷◌ c s) = drop_text n s
