-- ===== src/Configs.antt =====
-- `configState_getValues` of opsiconfd/backend/rpc/obj_config_state.py: the values of configs on
-- hosts, from their defaults, the depot of a client and the client itself.
pub mod Tables
pub mod Depots
pub mod Precedence
pub mod Clients
mod Samples
use opsiconfd.Prelude.{
  String, List, [], ◌∷◌, ◌++◌, Option, none, some, Bool, true, false, not, if◌then◌else◌, ◌==◌, any,
  map,
}
use opsiconfd.Prelude.Dict.{Dict, lookup, insert}

-- A config has texts or truth values as its values.
pub data Value : Type 0 where
  text : String → Value
  flag : Bool → Value

pub record Config : Type 0 where
  pub id : String
  pub default_values : List Value

pub record ConfigState : Type 0 where
  pub object_id : String
  pub config_id : String
  pub values : List Value

-- The values by config id, and these by object id.
abbrev pub Row : Type 0
Row = Dict (List Value)

abbrev pub Table : Type 0
Table = Dict Row

-- What the function asks the backend. An empty list of ids filters nothing.
pub record Backend : Type 0 where
  pub configserver_id : String
  pub configs : (config_ids : List String) → List Config
  pub host_ids : (object_ids : List String) → List String
  pub config_states : (config_ids : List String) (object_ids : List Value) → List ConfigState

abbrev pub get_row : String → Table → Row
get_row o t = elim (lookup o t) [ none ↦ [] | some row ↦ row ]

-- `res[object_id][config_id] = values`, with a new row for a new object.
pub put : ConfigState → Table → Table
put s t = insert s.object_id (insert s.config_id s.values (get_row s.object_id t)) t

pub put_all : List ConfigState → Table → Table
unfolding put
put_all [] t = t
put_all (s ∷ ss) t = put_all ss (put s t)

-- `{c.id: c.defaultValues for c in ...}`
pub defaults_of : List Config → Row → Row
defaults_of [] row = row
defaults_of (c ∷ cs) row = defaults_of cs (insert c.id c.default_values row)

-- `{h: defaults.copy() for h in ...}`
pub copy_defaults : Row → List String → Table → Table
copy_defaults defaults [] t = t
copy_defaults defaults (h ∷ hs) t = copy_defaults defaults hs (insert h defaults t)

-- `{ctd.getObjectId(): ctd.getValues()[0] for ctd in ...}`; `none` is an IndexError.
unfoldable pub client_depots : List ConfigState → Dict Value → Option (Dict Value)
client_depots [] d = some d
client_depots (s ∷ ss) d = elim s.values [
  | [] ↦ none
  | v ∷ vs ↦ client_depots ss (insert s.object_id v d)
]

-- `list(set(...))`: Python fixes no order, the model keeps that of the last occurrences.
abbrev eq_value : Value → Value → Bool
eq_value (text s) (text t) = s == t
eq_value (flag true) (flag b) = b
eq_value (flag false) (flag b) = not b
eq_value _ _ = false

pub distinct : List Value → List Value
distinct [] = []
distinct (v ∷ vs) = let rest = distinct vs in if any (eq_value v) rest then rest else v ∷ rest

-- `list(d.values())`
abbrev values_of : Dict Value → List Value
values_of [] = []
values_of ((k, v) ∷ d) = v ∷ values_of d

-- The depot whose values a host gets: the configserver if it has none. A truth value is no depot.
abbrev pub depot_of : String → Option Value → Option String
depot_of configserver_id none = some configserver_id
depot_of configserver_id (some (text s)) = some (if s == "" then configserver_id else s)
depot_of configserver_id (some (flag true)) = none
depot_of configserver_id (some (flag false)) = some configserver_id

-- `for cid, value in row.items(): res[host_id][cid] = value`
pub overlay : Row → Row → Row
overlay [] row = row
overlay ((c, v) ∷ over) row = overlay over (insert c v row)

-- The same on the table; `none` is a KeyError.
pub overlay_at : String → Row → Table → Option Table
unfolding overlay
overlay_at h [] t = some t
overlay_at h (e ∷ over) t = elim (lookup h t) [
  | none ↦ none
  | some row ↦ some (insert h (overlay (e ∷ over) row) t)
]

module _ (configserver_id : String) (depots : Dict Value) (depot_values : Table) where
  -- The body of the loop over the hosts.
  pub add_depot_values : String → Table → Option Table
  unfolding overlay_at
  add_depot_values h t = elim (depot_of configserver_id (lookup h depots)) [
    | none ↦ some t
    | some depot ↦ elim (lookup depot depot_values) [
      | none ↦ some t
      | some row ↦ overlay_at h row t
    ]
  ]

  pub add_all_depot_values : List String → Table → Option Table
  unfolding add_depot_values
  add_all_depot_values [] t = some t
  add_all_depot_values (h ∷ hs) t = elim (add_depot_values h t) [
    | none ↦ none
    | some t' ↦ add_all_depot_values hs t'
  ]

module _ (b : Backend) (config_ids object_ids : List String) where
  -- The block under `if with_defaults`.
  pub default_values : Option Table
  unfolding defaults_of copy_defaults client_depots distinct put_all add_all_depot_values
  default_values =
      elim (client_depots (b.config_states ("clientconfig.depot.id" ∷ []) (map text object_ids))
        []) [
          | none ↦ none
          | some depots ↦
              let hosts = b.host_ids object_ids in
              let defaults = defaults_of (b.configs config_ids) [] in
              let depot_ids = distinct (values_of depots) ++ text b.configserver_id ∷ [] in
              add_all_depot_values b.configserver_id depots
                (put_all (b.config_states config_ids depot_ids) []) hosts
                (copy_defaults defaults hosts [])
        ]

  -- `configState_getValues`
  pub get_values : Bool → Option Table
  unfolding default_values
  get_values with_defaults = elim (if with_defaults then default_values else some []) [
    | none ↦ none
    | some t ↦ some (put_all (b.config_states config_ids (map text object_ids)) t)
  ]
