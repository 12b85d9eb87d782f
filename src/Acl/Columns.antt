-- ===== src/Acl/Columns.antt =====
-- `get_columns` and `get_allowed_client_ids` of opsiconfd/backend/mysql/__init__.py.
use opsiconfd.Prelude.{
  String, List, [], ◌∷◌, Option, none, some, Bool, true, false, not, ◌&&◌, ◌||◌, if◌then◌else◌,
  ◌==◌,
}
use opsiconfd.Prelude.Text.{eq_option, contains}
use opsiconfd.Prelude.Dict.{Dict, lookup, insert}
use opsiconfd.Prelude.Effect.{Outcome, done, raised}
use opsiconfd.Sessions.Data.{Session}
use opsiconfd.Sessions.World.{Error, runtime_error, key_error}
use opsiconfd.Sessions.Store.{is_empty}
use opsiconfd.Acl.{all, self, opsi_depotserver, opsi_client, sys_group, sys_user, Ace}

-- The SQL of a column: itself, NULL, or itself in the rows of one client and something else in others.
pub data Select : Type 0 where
  column null : Select
  if_client : (client_id : Option String) → Select → Select

pub record ColumnInfo : Type 0 where
  pub table : String
  pub column_name : String
  pub client_id_column : Bool
  pub select : Option Select

-- The tables with their columns, the attributes of columns, and the columns of client ids; the empty
-- text is no column.
pub record Schema : Type 0 where
  pub tables : Dict (List String)
  pub column_to_attribute : Dict (Dict String)
  pub client_id_columns : Dict String

abbrev pub is_self : Ace → Bool
is_self a = elim a.ace_type [
  | self ↦ true
  | all ↦ false
  | opsi_depotserver ↦ false
  | opsi_client ↦ false
  | sys_group ↦ false
  | sys_user ↦ false
]

-- Whether an entry skips an attribute.
abbrev pub skips : String → Ace → Bool
skips attr a =
    (not (is_empty a.allowed_attributes) && not (contains attr a.allowed_attributes))
    || (not (is_empty a.denied_attributes) && contains attr a.denied_attributes)

-- The loop over the entries: `selected` and `self_ace`, from their values before it.
unfoldable pub select_by : String → List Ace → Bool → Option Ace → Bool × Option Ace
select_by attr [] selected own = (selected, own)
select_by attr (a ∷ aces) selected own =
    let by_self = select_by attr aces selected (some a) in
    let by_other = select_by attr aces true own in
    let skipped = select_by attr aces selected own in
    if skips attr a then skipped else if is_self a then by_self else by_other

-- The client id column of the first table, and the SQL of a column that is selected.
abbrev pub own_select : Option String → Ace → Select → Outcome Error (Option Select)
own_select none a s = raised runtime_error
own_select (some c) a s = done (some (if c == "" then s else if_client a.id s))

abbrev pub selected_sql : Bool → Select
selected_sql true = column
selected_sql false = null

unfoldable pub select_of : Option String → Bool × Option Ace → Outcome Error (Option Select)
select_of id_column (selected, none) = done (if selected then some column else none)
select_of id_column (selected, some a) = own_select id_column a (selected_sql selected)

-- The SQL of the column of an attribute.
unfoldable pub column_select :
    Option String → List Ace → List String → String → Outcome Error (Option Select)
unfolding select_by select_of
column_select id_column aces attributes attr =
    if attr == "type"
    then done (some column)
    else if not (is_empty attributes) && not (contains attr attributes)
    then done none
    else select_of id_column (select_by attr aces (is_empty aces) none)

abbrev pub attribute_of : Schema → String → String → String
attribute_of schema table col = elim (lookup table schema.column_to_attribute) [
  | none ↦ col
  | some names ↦ elim (lookup col names) [ none ↦ col | some attr ↦ attr ]
]

module _ (schema : Schema) (aces : List Ace) (attributes : List String) (first_table : String) where
  abbrev id_column : Option String
  id_column = lookup first_table schema.client_id_columns

  abbrev with_select :
      String
      → String
      → String
      → Outcome Error (Option Select)
      → Dict ColumnInfo
      → Outcome Error (Dict ColumnInfo)
  with_select table col attr (raised e) res = raised e
  with_select table col attr (done select) res = done (
      insert attr
        (record {
          table = table;
          column_name = col;
          client_id_column = table == first_table && eq_option (some col) id_column;
          select = select;
        })
        res)

  -- The loop over the columns of a table.
  pub add_columns : String → List String → Dict ColumnInfo → Outcome Error (Dict ColumnInfo)
  unfolding column_select
  add_columns table [] res = done res
  add_columns table (col ∷ cols) res =
      let attr = attribute_of schema table col in
      elim (lookup attr res) [
        | some info ↦ add_columns table cols res
        | none ↦
            elim (with_select table col attr (column_select id_column aces attributes attr) res) [
              | raised e ↦ raised e
              | done res' ↦ add_columns table cols res'
            ]
      ]

  -- The loop over the tables.
  pub add_tables : List String → Dict ColumnInfo → Outcome Error (Dict ColumnInfo)
  unfolding add_columns
  add_tables [] res = done res
  add_tables (t ∷ ts) res = elim (lookup t schema.tables) [
    | none ↦ raised key_error
    | some cols ↦ elim (add_columns t cols res) [
      | raised e ↦ raised e
      | done res' ↦ add_tables ts res'
    ]
  ]

-- `get_columns`, of a list of tables with a first one.
pub get_columns :
    Schema
    → (first_table : String) (tables : List String) → List Ace
    → List String
    → Outcome Error (Dict ColumnInfo)
unfolding add_tables
get_columns schema t ts aces attributes = add_tables schema aces attributes t (t ∷ ts) []

-- `get_allowed_client_ids`: `none` is all.
abbrev pub own_ids : Option Session → List String
own_ids none = []
own_ids (some s) = elim s.host [ none ↦ [] | some h ↦ h.id ∷ [] ]

abbrev pub allowed_from : Option Session → List Ace → Option (List String) → Option (List String)
allowed_from session [] ids = ids
allowed_from session (a ∷ aces) ids =
    let rest = allowed_from session aces (some (own_ids session)) in
    if is_self a then rest else none

unfoldable pub get_allowed_client_ids : Option Session → List Ace → Option (List String)
get_allowed_client_ids session aces = allowed_from session aces none
