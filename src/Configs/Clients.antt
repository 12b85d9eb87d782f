-- ===== src/Configs/Clients.antt =====
-- `configState_getClientToDepotserver` of opsiconfd/backend/rpc/obj_config_state.py: the depots of
-- clients, and the depots with the same products.
pub mod Known
use opsiconfd.Prelude.{
  String, List, [], ◌∷◌, ◌++◌, Option, none, some, Bool, true, false, not, ◌&&◌, if◌then◌else◌,
  ◌==◌, map,
}
use Prim.Native.String.{◌++◌ as ◌+++◌}
use opsiconfd.Prelude.Text.{contains, text_le}
use opsiconfd.Prelude.Dict.{Dict, lookup, insert}
use opsiconfd.Prelude.Sort.{sort}
use opsiconfd.Configs.{Value, text, flag, Row, Table, Backend, get_values}

pub record ProductOnDepot : Type 0 where
  pub depot_id : String
  pub product_id : String
  pub product_version : String
  pub package_version : String

-- What the function asks the backend, beside the values of configs. The ids that it is given are
-- checked by opsicommon before; an empty list filters nothing.
pub record Idents : Type 0 where
  pub configserver_ids : List String
  pub depot_ids : List String → List String
  pub client_ids : List String → List String
  pub products_on_depots : (product_ids : List String) → List ProductOnDepot

pub record Assignment : Type 0 where
  pub depot_id : String
  pub client_id : String
  pub alternative_depot_ids : List String

-- `configs["clientconfig.depot.id"][0]`, if there is one that is not empty.
abbrev pub depot_value : Row → Option Value
depot_value row = elim (lookup "clientconfig.depot.id" row) [
  | none ↦ none
  | some values ↦ elim values [
    | [] ↦ none
    | v ∷ vs ↦ elim v [
      | text s ↦ if s == "" then none else some (text s)
      | flag b ↦ if b then some (flag b) else none
    ]
  ]
]

-- `clientIds.remove(client_id)`; `none` is a ValueError.
unfoldable pub remove_id : String → List String → Option (List String)
remove_id k [] = none
remove_id k (j ∷ js) =
    let rest = remove_id k js in
    if k == j then some js else elim rest [ none ↦ none | some js' ↦ some (j ∷ js') ]

-- The clients that are left, the depots that are used, each at its last use, and the result.
pub record Progress : Type 0 where
  pub clients : List String
  pub used : List String
  pub result : List Assignment

-- `used_depot_ids.add`
abbrev pub add_used : String → List String → List String
add_used d used = if contains d used then used else used ++ d ∷ []

-- The body of the loop, for a client that has a depot.
abbrev pub assign : List String → String → Value → List String → Progress → Progress
assign depots c (flag b) left p = record p { clients = left }
assign depots c (text d) left p =
    if contains d depots
    then record {
      clients = left;
      used = add_used d p.used;
      result = p.result ++ record { depot_id = d; client_id = c; alternative_depot_ids = [] } ∷ [];
    }
    else record p { clients = left }

unfoldable pub assign_all : List String → Table → Progress → Option Progress
unfolding remove_id
assign_all depots [] p = some p
assign_all depots ((c, row) ∷ table) p = elim (depot_value row) [
  | none ↦ assign_all depots table p
  | some v ↦ elim (remove_id c p.clients) [
    | none ↦ none
    | some left ↦ assign_all depots table (assign depots c v left p)
  ]
]

abbrev pub to_server : String → List String → List Assignment
to_server server [] = []
to_server server (c ∷ cs) =
    record { depot_id = server; client_id = c; alternative_depot_ids = [] } ∷ to_server server cs

abbrev pub is_empty : List String → Bool
is_empty [] = true
is_empty (x ∷ xs) = false

-- The clients that are left go to the configserver.
unfoldable pub assign_rest : String → List String → Progress → Progress
assign_rest server depots p =
    if not (is_empty p.clients) && contains server depots
    then record p { used = add_used server p.used; result = p.result ++ to_server server p.clients }
    else p

-- The products by depot.
unfoldable pub products_by_depot :
    List ProductOnDepot → Dict (Dict ProductOnDepot) → Dict (Dict ProductOnDepot)
products_by_depot [] d = d
products_by_depot (p ∷ ps) d = products_by_depot ps (
    insert p.depot_id
      (insert p.product_id p (elim (lookup p.depot_id d) [ none ↦ [] | some row ↦ row ])) d)

-- The entries sorted by product id.
abbrev pub sort_products : Dict ProductOnDepot → Dict ProductOnDepot
sort_products = sort (λ e f. text_le e.0 f.0)

unfoldable pub product_string : Dict ProductOnDepot → String
product_string [] = ""
product_string ((k, p) ∷ ps) =
    "|" +++ k +++ ";" +++ p.product_version +++ ";" +++ p.package_version +++ product_string ps

unfoldable pub product_strings : Dict (Dict ProductOnDepot) → Dict String
unfolding product_string
product_strings [] = []
product_strings ((d, ps) ∷ ds) = (d, product_string (sort_products ps)) ∷ product_strings ds

abbrev text_of : Option String → String
text_of none = ""
text_of (some s) = s

-- The other depots with the products of a depot.
unfoldable pub alternatives : String → String → Dict String → List String
alternatives used s [] = []
alternatives used s ((d, t) ∷ ds) =
    let rest = alternatives used s ds in if not (d == used) && (s == t) then d ∷ rest else rest

unfoldable pub set_alternatives : String → List String → List Assignment → List Assignment
set_alternatives used alts [] = []
set_alternatives used alts (a ∷ as') =
    (if a.depot_id == used then record a { alternative_depot_ids = alts } else a)
    ∷ set_alternatives used alts as'

unfoldable pub set_all_alternatives : Dict String → List String → List Assignment → List Assignment
unfolding alternatives set_alternatives
set_all_alternatives strings [] result = result
set_all_alternatives strings (u ∷ us) result =
    set_all_alternatives strings us
      (set_alternatives u (alternatives u (text_of (lookup u strings)) strings) result)

module _ (b : Backend) (i : Idents) (master_only : Bool) (product_ids : List String) where
  -- From the assignments on.
  unfoldable pub with_alternatives : Progress → List Assignment
  unfolding products_by_depot product_strings set_all_alternatives
  with_alternatives p =
      if master_only
      then p.result
      else set_all_alternatives
          (product_strings (products_by_depot (i.products_on_depots product_ids) [])) p.used
          p.result

  -- With the depots and the clients, of which there are some.
  unfoldable pub assign_clients : String → List String → List String → Option (List Assignment)
  unfolding assign_all assign_rest with_alternatives
  assign_clients configserver_id depots clients =
      elim (get_values b ("clientconfig.depot.id" ∷ []) clients true) [
        | none ↦ none
        | some table ↦
            elim (assign_all depots table (record { clients = clients; used = []; result = [] })) [
              | none ↦ none
              | some p ↦ some (with_alternatives (assign_rest configserver_id depots p))
            ]
      ]

  -- With the configserver.
  unfoldable pub assign_known : String → List String → List String → Option (List Assignment)
  unfolding assign_clients
  assign_known configserver_id depot_ids client_ids =
      let depots = i.depot_ids depot_ids in
      let clients = i.client_ids client_ids in
      if is_empty depots
      then some []
      else if is_empty clients
      then some []
      else assign_clients configserver_id depots clients

  -- `configState_getClientToDepotserver`; without a configserver it ends in an IndexError.
  unfoldable pub get_client_to_depotserver : List String → List String → Option (List Assignment)
  get_client_to_depotserver depot_ids client_ids = elim i.configserver_ids [
    | [] ↦ none
    | configserver_id ∷ others ↦ assign_known configserver_id depot_ids client_ids
  ]
