-- ===== src/Configs/Samples.antt =====
-- Tests of `configState_getValues`: the client "pc1" on the depot "d1" of the configserver "cs".
use opsiconfd.Prelude.{String, ◌≡◌, refl, List, [], ◌∷◌, some, true, false, if◌then◌else◌, ◌==◌}
use opsiconfd.Prelude.Dict.{Dict, lookup, insert}
use opsiconfd.Prelude.Text.{contains, text_le}
use opsiconfd.Prelude.Sort.{sort}
use opsiconfd.Configs.{
  default_values, defaults_of, copy_defaults, distinct, put, put_all, overlay, overlay_at,
  add_depot_values, add_all_depot_values, Value, text, ConfigState, Table, Backend, client_depots,
  get_values,
}
use opsiconfd.Configs.Tables.{get, value_of}
use opsiconfd.Configs.Clients.{
  product_string, product_strings, alternatives, set_alternatives, set_all_alternatives,
  products_by_depot, remove_id, assign_all, assign_rest, with_alternatives, assign_clients,
  assign_known, ProductOnDepot, Idents, Assignment, get_client_to_depotserver,
}
use opsiconfd.Configs.Clients.Known.{AllKnown, get_client_to_depotserver-AllKnown}
use opsiconfd.Configs.Precedence.{precedence, get_values-precedence, get_values-own}

abbrev state : String → String → String → ConfigState
state o c v = record { object_id = o; config_id = c; values = text v ∷ [] }

abbrev first_id : List String → String
first_id [] = ""
first_id (i ∷ is) = i

-- Asked for the depots, or for one config of "pc1" or of the depots.
abbrev backend : Backend
backend = record {
  configserver_id = "cs";
  configs = λ ids. record { id = "lang"; default_values = text "en" ∷ [] } ∷ [];
  host_ids = λ ids. "pc1" ∷ [];
  config_states = λ ids objects. elim objects [
    | v ∷ [] ↦ if first_id ids == "lang" then [] else state "pc1" "clientconfig.depot.id" "d1" ∷ []
    | _ ↦ state "d1" "lang" "de" ∷ state "cs" "lang" "fr" ∷ []
  ];
}

abbrev depots : Dict Value
depots = ("pc1", text "d1") ∷ []

depots_named :
    client_depots (backend.config_states ("clientconfig.depot.id" ∷ []) (text "pc1" ∷ [])) []
    ≡ some depots
unfolding client_depots insert
depots_named = refl

get_values-precedence_example :
    (t : Table) × (get_values backend ("lang" ∷ []) ("pc1" ∷ []) true ≡ some t)
    × ((o c : String) → get o c t ≡ precedence backend ("lang" ∷ []) ("pc1" ∷ []) depots o c)
get_values-precedence_example =
    get_values-precedence backend ("lang" ∷ []) ("pc1" ∷ []) depots depots_named

get_values-own_example :
    (t : Table) × (get_values backend ("clientconfig.depot.id" ∷ []) ("pc1" ∷ []) false ≡ some t)
    × ((o c : String) → get o c t ≡ value_of (state "pc1" "clientconfig.depot.id" "d1" ∷ []) o c)
get_values-own_example = get_values-own backend ("clientconfig.depot.id" ∷ []) ("pc1" ∷ [])

abbrev on : String → ProductOnDepot
on depot = record {
  depot_id = depot;
  product_id = "firefox";
  product_version = "1";
  package_version = "2";
}

-- "pc1" is the only client; "d1" and "d2" have the same product.
abbrev idents : Idents
idents = record {
  configserver_ids = "cs" ∷ [];
  depot_ids = λ ids. "cs" ∷ "d1" ∷ "d2" ∷ [];
  client_ids = λ ids. "pc1" ∷ [];
  products_on_depots = λ ids. on "d1" ∷ on "d2" ∷ [];
}

abbrev to_d1 : Assignment
to_d1 = record { depot_id = "d1"; client_id = "pc1"; alternative_depot_ids = "d2" ∷ [] }

assigned : get_client_to_depotserver backend idents false [] [] [] ≡ some (to_d1 ∷ [])
unfolding client_depots insert lookup contains text_le sort product_string product_strings
    alternatives set_alternatives set_all_alternatives products_by_depot remove_id assign_all
    assign_rest with_alternatives assign_clients assign_known get_client_to_depotserver get_values
    default_values defaults_of copy_defaults distinct put put_all overlay overlay_at
    add_depot_values add_all_depot_values
assigned = refl

get_client_to_depotserver-AllKnown_example : AllKnown ("cs" ∷ "d1" ∷ "d2" ∷ []) (to_d1 ∷ [])
get_client_to_depotserver-AllKnown_example =
    get_client_to_depotserver-AllKnown backend idents false [] [] [] (to_d1 ∷ []) assigned
