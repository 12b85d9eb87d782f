-- ===== src/Actions/Data.antt =====
-- The objects of opsiconfd/backend/rpc/obj_product_dependency.py: `Action`, `ActionGroup`, and
-- the attributes that the code reads from the opsicommon classes.
use opsiconfd.Prelude.{ℕ, String, List, [], ◌∷◌, ◌++◌, Option, if◌then◌else◌, ◌==◌}
use opsiconfd.Prelude.Int.{ℤ, pos, ltb_ℤ, max_ℤ, min_ℤ}
use opsiconfd.Prelude.Dict.{Dict}

pub record ProductDependency : Type 0 where
  pub product_id : String
  pub product_version : String
  pub package_version : String
  pub product_action : String
  pub required_product_id : String
  pub required_product_version : Option String
  pub required_package_version : Option String
  pub required_action : Option String
  pub required_installation_status : Option String
  pub requirement_type : Option String

pub record ProductOnDepot : Type 0 where
  pub depot_id : String
  pub product_id : String
  pub product_version : String
  pub package_version : String

-- `script a` is the attribute `{a}Script`: `none` if the class has no such attribute.
pub record Product : Type 0 where
  pub id : String
  pub product_version : String
  pub package_version : String
  pub product_type : String
  pub priority : Option ℤ
  pub script : String → Option (Option String)

pub record ProductOnClient : Type 0 where
  pub product_id : String
  pub product_type : String
  pub client_id : String
  pub action_request : Option String
  pub action_sequence : ℤ
  pub installation_status : Option String
  pub product_version : Option String
  pub package_version : Option String

pub record Action : Type 0 where
  pub product_id : String
  pub product_type : String
  pub action : String
  pub priority : ℤ
  pub product_on_client : Option ProductOnClient

-- An entry of `sort_log`: the order by priority, or a move in a sort run.
pub data SortEntry : Type 0 where
  ordered : List (String × ℤ) → SortEntry
  moved : (run : ℕ) (moving : String) (from : Option ℕ) (behind : String) (to : ℕ) → SortEntry

pub record ActionGroup : Type 0 where
  pub priority : ℤ
  pub actions : List Action
  pub dependencies : Dict (List ProductDependency)
  pub sort_log : List SortEntry

abbrev pub empty_group : ActionGroup
empty_group = record { priority = pos 0; actions = []; dependencies = []; sort_log = [] }

-- `add_action`
unfoldable pub add_action : ActionGroup → Action → ActionGroup
add_action g a =
    let g' : ActionGroup = record g { actions = g.actions ++ a ∷ [] } in
    let max_priority = max_ℤ g.priority a.priority in
    let min_priority = min_ℤ g.priority a.priority in
    if a.action == "none"
    then g'
    else if ltb_ℤ (pos 0) max_priority
    then record g' { priority = max_priority }
    else if ltb_ℤ min_priority (pos 0)
    then record g' { priority = min_priority }
    else g'
