-- ===== src/Acl/Reader/Wide.antt =====
-- What an entry of users or groups with an empty parameter lets in.
use opsiconfd.Prelude.{
  String, List, [], ◌∷◌, Option, none, some, true, false, ◌==◌, map, any, ◌≡◌, refl, sym, ap, ◌∙◌,
  arith, Bool-cases, inl, inr, eq_iff, eq_refl, subst,
}
use opsiconfd.Prelude.Text.{contains}
use opsiconfd.Prelude.Dict.{lookup}
use opsiconfd.Prelude.Split.{split, count_char}
use opsiconfd.Prelude.Strip.{strip, replace_from}
use opsiconfd.Prelude.Effect.{done, done_injective}
use opsiconfd.Sessions.Data.{Session}
use opsiconfd.Acl.{
  AceType, sys_group, sys_user, Ace, Acl, a_user, user_type, prepend, pick_of, pick_all, entries,
  or_denied, get_ace,
}
use opsiconfd.Acl.Reader.{
  Reading, no_params, takes_ids, needs_params, id_of, without_last, with_id, read_typed,
}
use opsiconfd.Acl.Reader.Pieces.{take_params-split, split-first}

-- Text that the loop takes for ids only.
abbrev pub IsIds : String → Type 0
IsIds s =
    ((s == "") ≡ false)
    × (count_char b'(' s ≡ 0)
    × (count_char b')' s ≡ 0)
    × (without_last b',' s ≡ none)
    × (contains "attributes" (map strip (split b',' s)) ≡ false)

-- The entry for a piece of text.
abbrev pub for_piece : Reading → AceType → String → Ace
for_piece reading t v = with_id reading t no_params (some (id_of reading t v))

pieces_of :
    (reading : Reading) (t : AceType) (vs : List String)
    → map (λ i. with_id reading t no_params (some i)) (map (id_of reading t) vs)
      ≡ map (for_piece reading t) vs
pieces_of reading t [] = refl
pieces_of reading t (v ∷ vs) = ap (◌∷◌ (for_piece reading t v)) (pieces_of reading t vs)

-- Of an entry for users, groups, servers or clients, parameters without parentheses and without a comma
-- at the end, none of which is "attributes", are read as one entry for each text between the commas,
-- empty ones included.
pub read_typed-split :
    (reading : Reading) (t : AceType) (s : String)
    → takes_ids t ≡ true
    → IsIds s
    → read_typed reading t s ≡ done (map (for_piece reading t) (split b',' s))
unfolding read_typed
read_typed-split reading t s takes (some_text, left, right, end, other) =
    let (x, xs, e) = split-first b',' s in
    rw (some_text, take_params-split reading t s takes some_text left right end other, e)
      (ap (λ aces. done (for_piece reading t x ∷ aces)) (pieces_of reading t xs))

needs→takes : (t : AceType) → needs_params t ≡ true → takes_ids t ≡ true
needs→takes sys_group h = refl
needs→takes sys_user h = refl
needs→takes _ h = absurd (cc h)

is_wide :
    (reading : Reading) (t : AceType) (s : Session) (v : String)
    → needs_params t ≡ true
    → (strip v == "") ≡ true
    → pick_of t a_user s (for_piece reading t v) ≡ some (for_piece reading t v)
unfolding replace_from
is_wide reading sys_group s v needs blank = rw ((eq_iff (strip v) "").0 blank) refl
is_wide reading sys_user s v needs blank = rw ((eq_iff (strip v) "").0 blank) refl
is_wide reading _ s v needs blank = absurd (cc needs)

abbrev IsSome : {A : Type 0} → List A → Type 0
IsSome {A} aces = (a : A) × (rest : List A) × (aces ≡ a ∷ rest)

prepend-IsSome : (o : Option Ace) (aces : List Ace) → IsSome aces → IsSome (prepend o aces)
prepend-IsSome none aces h = h
prepend-IsSome (some a) aces h = (a, aces, refl)

pick_all-wide :
    (reading : Reading) (t : AceType) (s : Session) (vs : List String)
    → user_type s ≡ a_user
    → needs_params t ≡ true
    → any (λ v. strip v == "") vs ≡ true
    → IsSome (pick_all s (map (for_piece reading t) vs))
unfolding pick_all
pick_all-wide reading t s [] user needs blank = absurd (cc blank)
pick_all-wide reading t s (v ∷ vs) user needs blank = elim (Bool-cases (strip v == "")) [
  | inl e ↦ (
    for_piece reading t v,
    pick_all s (map (for_piece reading t) vs),
    ap (λ o. prepend o (pick_all s (map (for_piece reading t) vs)))
        (ap (λ u. pick_of t u s (for_piece reading t v)) user ∙ is_wide reading t s v needs e),
  )
  | inr e ↦
      prepend-IsSome (pick_of t (user_type s) s (for_piece reading t v)) _
        (pick_all-wide reading t s vs user needs (ground (arith, blank, e)))
]

entries-first :
    (method : String) (aces : List Ace) (acl : Acl) → entries method ((method, aces) ∷ acl) ≡ aces
unfolding lookup
entries-first method aces acl = rw (eq_refl method, entries) refl

get_ace-first :
    (method : String) (aces : List Ace) (acl : Acl) (s : Session)
    → get_ace ((method, aces) ∷ acl) method (some s) ≡ or_denied (pick_all s aces)
unfolding get_ace
get_ace-first method aces acl s = ap (λ x. or_denied (pick_all s x)) (entries-first method aces acl)

-- If there is nothing but blanks before, between or behind two commas of such parameters of an entry for
-- users or groups, `_get_ace` denies the method of the entry to no user, whichever name or groups that has,
-- and gives at least one entry.
pub get_ace-wide :
    (reading : Reading) (t : AceType) (text method : String) (acl : Acl) (aces : List Ace)
    (s : Session)
    → needs_params t ≡ true
    → IsIds text
    → any (λ v. strip v == "") (split b',' text) ≡ true
    → read_typed reading t text ≡ done aces
    → user_type s ≡ a_user
    → (a : Ace) × (rest : List Ace) × (get_ace ((method, aces) ∷ acl) method (some s)
        ≡ done (a ∷ rest))
get_ace-wide reading t text method acl aces s needs ids blank reads user =
    let same =
      done_injective (sym (read_typed-split reading t text (needs→takes t needs) ids) ∙ reads) in
    let (a, rest, got) =
      subst (λ x. IsSome (pick_all s x)) same
        (pick_all-wide reading t s (split b',' text) user needs blank) in
    (a, rest, get_ace-first method aces acl s ∙ ap or_denied got)
