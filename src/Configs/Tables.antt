-- ===== src/Configs/Tables.antt =====
-- What the updates of the tables of config values do to a lookup.
use opsiconfd.Prelude.{
  String, ◌≡◌, refl, List, [], ◌∷◌, Option, none, some, ◌&&◌, arith, if◌then◌else◌, ◌==◌, eq_iff,
  Bool-cases, inl, inr,
}
use opsiconfd.Prelude.Text.{contains, contains-cons, contains-nil}
use opsiconfd.Prelude.Dict.{lookup, insert, lookup-insert, HasUniqueKeys, HasUniqueKeys-insert}
use opsiconfd.Configs.{
  Value, ConfigState, Row, Table, get_row, put, put_all, overlay, copy_defaults,
}

-- The first value that there is.
abbrev pub or_else : Option (List Value) → Option (List Value) → Option (List Value)
or_else none o = o
or_else (some v) o = some v

-- What the last config state for an object and a config says.
pub value_of : List ConfigState → String → String → Option (List Value)
value_of [] o c = none
value_of (s ∷ ss) o c =
    or_else (value_of ss o c) (if s.object_id == o && s.config_id == c then some s.values else none)

abbrev pub get : String → String → Table → Option (List Value)
get o c t = lookup c (get_row o t)

pub get_row-insert :
    (o h : String) (row : Row) (t : Table)
    → get_row o (insert h row t) ≡ (if h == o then row else get_row o t)
get_row-insert o h row t = ground (arith, lookup-insert h o row t)

get-put :
    (o c : String) (s : ConfigState) (t : Table)
    → get o c (put s t)
      ≡ (if s.object_id == o && s.config_id == c then some s.values else get o c t)
unfolding put
get-put o c s t =
    let row = get_row s.object_id t in
    ground (
      arith,
      get_row-insert o s.object_id (insert s.config_id s.values row) t,
      lookup-insert s.config_id c s.values row,
      eq_iff s.object_id o,
    )

pub get-put_all :
    (o c : String) (ss : List ConfigState) (t : Table)
    → get o c (put_all ss t) ≡ or_else (value_of ss o c) (get o c t)
unfolding put_all value_of
get-put_all o c [] t = refl
get-put_all o c (s ∷ ss) t = ground (arith, get-put_all o c ss (put s t), get-put o c s t)

pub lookup-overlay :
    (c : String) (over row : Row)
    → HasUniqueKeys over
    → lookup c (overlay over row) ≡ or_else (lookup c over) (lookup c row)
unfolding overlay lookup
lookup-overlay c [] row u = refl
lookup-overlay c ((k, v) ∷ over) row u =
    ground (arith, lookup-overlay c over (insert k v row) u.1, lookup-insert k c v row, eq_iff k c)

-- Every row of the table has each config once.
abbrev pub HasUniqueRows : Table → Type 0
HasUniqueRows t = (o : String) → HasUniqueKeys (get_row o t)

HasUniqueRows-put : (s : ConfigState) (t : Table) → HasUniqueRows t → HasUniqueRows (put s t)
unfolding put
HasUniqueRows-put s t u o = rw get_row-insert (elim (Bool-cases (s.object_id == o)) [
  | inl same ↦
      rw same (HasUniqueKeys-insert s.config_id s.values (get_row s.object_id t) (u s.object_id))
  | inr other ↦ rw other (u o)
])

pub HasUniqueRows-put_all :
    (ss : List ConfigState) (t : Table) → HasUniqueRows t → HasUniqueRows (put_all ss t)
unfolding put_all
HasUniqueRows-put_all [] t u = u
HasUniqueRows-put_all (s ∷ ss) t u = HasUniqueRows-put_all ss (put s t) (HasUniqueRows-put s t u)

pub get-copy_defaults :
    (o c : String) (defaults : Row) (hosts : List String) (t : Table)
    → get o c (copy_defaults defaults hosts t)
      ≡ (if contains o hosts then lookup c defaults else get o c t)
unfolding copy_defaults
get-copy_defaults o c defaults [] t = ground (arith, contains-nil o)
get-copy_defaults o c defaults (h ∷ hs) t = ground (
  arith,
  get-copy_defaults o c defaults hs (insert h defaults t),
  contains-cons o h hs,
  get_row-insert o h defaults t,
  eq_iff o h,
  eq_iff h o,
)
