-- ===== src/Sessions/Store/Names.antt =====
-- An attribute is found by its name, and the fields that are written are found in the hash.
use opsiconfd.Prelude.{
  ◌≡◌, refl, ap, ◌∙◌, sym, List, [], ◌∷◌, some, true, ◌&&◌, arith, if◌then◌else◌, eq_iff, any,
  Bool-cases, inl, inr,
}
use opsiconfd.Prelude.Dict.{lookup, insert, lookup-insert}
use opsiconfd.Sessions.Data.{Attribute, attribute_name, is_attribute, is_modified, version, Session}
use opsiconfd.Sessions.World.{Row, Env}
use opsiconfd.Sessions.Wire.{all_attributes, attribute_of, wire, serialize}
use opsiconfd.Sessions.Store.{hset, only_modified}

attribute_of-name : (a : Attribute) → attribute_of (attribute_name a) ≡ some a
unfolding attribute_of
attribute_of-name version = refl
attribute_of-name _ = refl

some_eq : {a b : Attribute} → some a ≡ some b → a ≡ b
some_eq h = cc

pub same_attribute : (a b : Attribute) → is_attribute a b ≡ true → a ≡ b
same_attribute a b h = some_eq (
    sym (attribute_of-name a)
    ∙ ap attribute_of ((eq_iff (attribute_name a) (attribute_name b)).0 h)
    ∙ attribute_of-name b)

pub is_attribute_refl : (a : Attribute) → is_attribute a a ≡ true
is_attribute_refl version = refl
is_attribute_refl _ = refl

pub any-all_attributes : (a : Attribute) → any (is_attribute a) all_attributes ≡ true
any-all_attributes version = refl
any-all_attributes _ = refl

-- Whether an attribute is written: all are, or the modified ones.
pub any-only_modified :
    (a : Attribute) (mods l : List Attribute)
    → any (is_attribute a) (only_modified mods l) ≡ (is_modified a mods && any (is_attribute a) l)
unfolding only_modified
any-only_modified a mods [] = ground arith
any-only_modified a mods (b ∷ l) = elim (Bool-cases (is_attribute a b)) [
  | inl same ↦
      ground
        (arith, any-only_modified a mods l, ap (λ x. is_modified x mods) (same_attribute a b same))
  | inr other ↦ ground (arith, any-only_modified a mods l)
]

same_wire :
    (env : Env) (s : Session) (a b : Attribute)
    → is_attribute a b ≡ true
    → wire env s a ≡ wire env s b
same_wire env s a b h = ap (wire env s) (same_attribute a b h)

-- A field of the hash after a write: the attribute's, if it is written, and else what it was.
pub lookup-hset :
    (env : Env) (s : Session) (a : Attribute) (l : List Attribute) (row : Row)
    → lookup (attribute_name a) (hset (serialize env s l) row)
      ≡ (if any (is_attribute a) l then some (wire env s a) else lookup (attribute_name a) row)
unfolding hset serialize
lookup-hset env s a [] row = refl
lookup-hset env s a (b ∷ l) row = ground (
  arith,
  lookup-hset env s a l (insert (attribute_name b) (wire env s b) row),
  lookup-insert (attribute_name b) (attribute_name a) (wire env s b) row,
  eq_iff (attribute_name a) (attribute_name b),
  eq_iff (attribute_name b) (attribute_name a),
  same_wire env s a b,
)
