-- ===== src/Prelude/Split/Laws.antt =====
-- A text that is put together at a character is cut there again.
use Prim.Native.Nat.{ℕ, suc, ◌+◌}
use Prim.Native.Char.{Char, code}
use Prim.Native.String.{String, ◌++◌}
use opsiconfd.Prelude.Tests.{Option-cases}
use opsiconfd.Prelude.Split.{cut, cut_last, count_char}
use text.Mathlib.TextLemmas.{nil-append, cons-append}
use mathlib.Core.Path.{◌≡◌, refl}
use mathlib.Core.Logic.{inl, inr}
use mathlib.Core.Option.{none, some}
use native.Mathlib.Omega.{arith}

module _ (k : ℕ) (c : Char) (is_k : code c ≡ k) where
  pub count-join :
      (s t : String) → count_char k (s ++ String.◌∷◌ c t) ≡ suc (count_char k s + count_char k t)
  unfolding count_char
  count-join String.[] t = rw nil-append (ground arith)
  count-join (String.◌∷◌ d s) t = rw cons-append (ground (arith, count-join s t))

  pub cut-join : (s t : String) → count_char k s ≡ 0 → cut k (s ++ String.◌∷◌ c t) ≡ some (s, t)
  unfolding cut count_char
  cut-join String.[] t h = rw nil-append (ground arith)
  cut-join (String.◌∷◌ d s) t h = rw cons-append (ground (arith, cut-join s t))

  pub cut_last-none : (t : String) → count_char k t ≡ 0 → cut_last k t ≡ none
  unfolding cut_last count_char
  cut_last-none String.[] h = refl
  cut_last-none (String.◌∷◌ d t) h = ground (arith, cut_last-none t)

  pub cut_last-join :
      (s t : String) → count_char k t ≡ 0 → cut_last k (s ++ String.◌∷◌ c t) ≡ some (s, t)
  unfolding cut_last
  cut_last-join String.[] t h = rw nil-append (ground (arith, cut_last-none t h))
  cut_last-join (String.◌∷◌ d s) t h = rw cons-append (ground (arith, cut_last-join s t h))

count-none : (k : ℕ) (s : String) → cut_last k s ≡ none → count_char k s ≡ 0
unfolding cut_last count_char
count-none k String.[] h = refl
count-none k (String.◌∷◌ c s) h = elim (Option-cases (cut_last k s)) [
  | inl e ↦ ground (arith, count-none k s e)
  | inr ((a', b'), e) ↦ ground arith
]

pub count-cut_last : (k : ℕ) (s a b : String) → cut_last k s ≡ some (a, b) → count_char k b ≡ 0
unfolding cut_last count_char
count-cut_last k String.[] a b h = cc
count-cut_last k (String.◌∷◌ c s) a b h = elim (Option-cases (cut_last k s)) [
  | inl e ↦ ground (arith, count-none k s e)
  | inr ((a', b'), e) ↦ ground (arith, count-cut_last k s a' b' e)
]
