-- ===== src/Acl/Reader.antt =====
-- `read_acl_file` of opsiconfd/backend/auth.py: how the file of access control entries is read.
pub mod Pieces
pub mod Wide
pub mod Samples
use Prim.Native.Char.{Char}
use Prim.Native.String.{◌++◌ as ◌+++◌}
use text.Mathlib.Text.{starts_with}
use opsiconfd.Prelude.{
  ℕ, String, List, [], ◌∷◌, ◌++◌, Option, none, some, Bool, true, false, not, ◌&&◌, ◌||◌,
  if◌then◌else◌, ◌==◌, map,
}
use opsiconfd.Prelude.Text.{contains}
use opsiconfd.Prelude.Split.{is_char, cut, split, drop_text}
use opsiconfd.Prelude.Strip.{strip, strip_start, replace}
use opsiconfd.Prelude.Effect.{Outcome, done, raised, ◌then_do◌, or_raise}
use opsiconfd.Acl.{AceType, all, self, opsi_depotserver, opsi_client, sys_group, sys_user, Ace}

-- The exceptions, the last that of `re.compile`.
pub data ReadError : Type 0 where
  value_error index_error re_error : ReadError

-- The configuration, and whether a text is a regular expression.
pub record Reading : Type 0 where
  pub admingroup : String
  pub fileadmingroup : String
  pub is_pattern : String → Bool

-- The variables of the loop over the parameters of an entry.
pub record Params : Type 0 where
  pub param : String
  pub param_values : List String
  pub in_values : Bool
  pub ids : List String
  pub allowed : List String
  pub denied : List String

abbrev pub no_params : Params
no_params = record {
  param = "";
  param_values = "" ∷ [];
  in_values = false;
  ids = [];
  allowed = [];
  denied = [];
}

abbrev pub type_of : String → Option AceType
type_of s =
    if s == "all"
    then some all
    else if s == "self"
    then some self
    else if s == "opsi_depotserver"
    then some opsi_depotserver
    else if s == "opsi_client"
    then some opsi_client
    else if s == "sys_group"
    then some sys_group
    else if s == "sys_user"
    then some sys_user
    else none

-- `ace_type in ("sys_group", "sys_user")`
abbrev pub needs_params : AceType → Bool
needs_params sys_group = true
needs_params sys_user = true
needs_params _ = false

-- The types whose parameters are ids.
abbrev pub takes_ids : AceType → Bool
takes_ids all = false
takes_ids self = false
takes_ids _ = true

-- `s.add(v)`
abbrev pub add_to : String → List String → List String
add_to v s = if contains v s then s else s ++ v ∷ []

-- `values[-1] += char`
unfoldable pub add_char : Char → List String → List String
add_char c [] = []
add_char c (v ∷ []) = (v +++ String.◌∷◌ c "") ∷ []
add_char c (v ∷ w ∷ vs) = v ∷ add_char c (w ∷ vs)

-- The values that are not empty, stripped.
unfoldable pub strip_values : List String → List String
strip_values [] = []
strip_values (v ∷ vs) = let rest = strip_values vs in if strip v == "" then rest else strip v ∷ rest

unfoldable pub add_attributes : List String → Params → Params
add_attributes [] p = p
add_attributes (v ∷ vs) p = add_attributes vs (
    if starts_with v "!"
    then record p { denied = add_to (strip (drop_text 1 v)) p.denied }
    else record p { allowed = add_to (strip v) p.allowed })

-- Text that ends with a character, without it.
unfoldable pub without_last : ℕ → String → Option String
without_last k String.[] = none
without_last k (String.◌∷◌ c s) =
    let rest = without_last k s in
    if s == ""
    then if is_char k c then some "" else none
    else elim rest [ none ↦ none | some r ↦ some (String.◌∷◌ c r) ]

module _ (reading : Reading) where
  open reading use {admingroup, fileadmingroup, is_pattern}

  abbrev pub id_of : AceType → String → String
  id_of sys_group v =
      replace "{fileadmingroup}" fileadmingroup (replace "{admingroup}" admingroup (strip v))
  id_of _ v = strip v

  -- A parameter has ended.
  unfoldable pub take_param : AceType → Params → Outcome ReadError Params
  take_param t p =
      if strip p.param == "attributes"
      then done (record (add_attributes (strip_values p.param_values) p) {
        param = "";
        param_values = "" ∷ [];
      })
      else if takes_ids t
      then done
          (record p { param = ""; param_values = "" ∷ []; ids = p.ids ++ id_of t p.param ∷ [] })
      else raised value_error

  abbrev add_to_param : Char → Params → Params
  add_to_param c p =
      if p.in_values
      then record p { param_values = add_char c p.param_values }
      else record p { param = p.param +++ String.◌∷◌ c "" }

  -- The first part of the loop's body: what the character means.
  unfoldable pub take_char : Bool → Char → Params → Outcome ReadError Params
  take_char last c p =
      if is_char b'(' c
      then if p.in_values then raised value_error else done (record p { in_values = true })
      else if is_char b')' c
      then if not p.in_values || p.param == ""
        then raised value_error
        else done (record p { in_values = false })
      else if not (is_char b',' c) || last
      then done (add_to_param c p)
      else done p

  -- The second: whether a value or a parameter ends there.
  unfoldable pub end_part : AceType → Bool → Char → Params → Outcome ReadError Params
  end_part t last c p =
      if is_char b',' c || last
      then if p.in_values
        then if last
          then raised value_error
          else done (record p { param_values = p.param_values ++ "" ∷ [] })
        else take_param t p
      else done p

  unfoldable pub take_params : AceType → String → Params → Outcome ReadError Params
  take_params t String.[] p = done p
  take_params t (String.◌∷◌ c s) p =
      take_char (s == "") c p then_do λ q. end_part t (s == "") c q then_do λ r. take_params t s r

  abbrev pub with_id : AceType → Params → Option String → Ace
  with_id t p i = record {
    ace_type = t;
    id = i;
    allowed_attributes = p.allowed;
    denied_attributes = p.denied;
  }

  -- An entry for each id, or one without.
  abbrev pub entries_of : AceType → Params → List Ace
  entries_of t p = elim p.ids [
    | [] ↦ with_id t p none ∷ []
    | i ∷ is ↦ map (λ j. with_id t p (some j)) (i ∷ is)
  ]

  -- The entries of a type with parameters, or without.
  unfoldable pub read_typed : AceType → String → Outcome ReadError (List Ace)
  read_typed t params =
      if params == ""
      then if needs_params t then raised value_error else done (entries_of t no_params)
      else (take_params t params no_params then_do λ p. done (entries_of t p))

  abbrev read_type : String → String → Outcome ReadError (List Ace)
  read_type name params =
      if name == ""
      then done []
      else (or_raise value_error (type_of name) then_do λ t. read_typed t params)

  -- One of the entries of a line, which are separated by semicolons.
  unfoldable pub read_entry : String → Outcome ReadError (List Ace)
  read_entry text = elim (cut b'(' (strip text)) [
    | none ↦ read_type (strip text) ""
    | some (name, params) ↦
        if params == ""
        then raised index_error
        else (or_raise value_error (without_last b')' params) then_do λ inner.
            read_type (strip name) inner)
  ]

  unfoldable pub read_entries : List String → Outcome ReadError (List Ace)
  read_entries [] = done []
  read_entries (e ∷ es) =
      read_entry e then_do λ aces. read_entries es then_do λ others. done (aces ++ others)

  -- What stands before the first colon of a line is a pattern for the names of methods.
  abbrev read_match : String × String → Outcome ReadError (List (String × Ace))
  read_match (method, rest) =
      if method == "" || strip_start rest == ""
      then raised value_error
      else if not (is_pattern (strip method))
      then raised re_error
      else (read_entries (split b';' (strip_start rest)) then_do λ aces.
          done (map (λ a. (strip method, a)) aces))

  unfoldable pub read_line : String → Outcome ReadError (List (String × Ace))
  read_line line =
      if strip line == "" || starts_with (strip line) "#"
      then done []
      else (or_raise value_error (cut b':' (strip line)) then_do read_match)

  unfoldable pub read_lines : List String → Outcome ReadError (List (String × Ace))
  read_lines [] = done []
  read_lines (l ∷ ls) =
      read_line l then_do λ aces. read_lines ls then_do λ others. done (aces ++ others)

  -- `read_acl_file` of the text of the file: each entry with its pattern.
  unfoldable pub read_acl_file : String → Outcome ReadError (List (String × Ace))
  read_acl_file text = read_lines (split b'\n' text)
