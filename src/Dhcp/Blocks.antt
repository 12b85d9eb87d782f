-- ===== src/Dhcp/Blocks.antt =====
-- `DHCPDConfBlock` of opsiconfd/dhcpd.py: components, blocks, and the parameters and options of a block.
use opsiconfd.Prelude.{
  String, List, [], ◌∷◌, ◌++◌, Option, none, some, Bool, true, false, not, ◌&&◌, ◌||◌,
  if◌then◌else◌, ◌==◌,
}
use opsiconfd.Prelude.Text.{contains}
use opsiconfd.Prelude.Dict.{Dict, insert, lookup}

-- The value of a parameter.
pub data Value : Type 0 where
  text : String → Value
  flag : Bool → Value

-- `a == b`
abbrev pub eq_value : Value → Value → Bool
eq_value (text s) (text t) = s == t
eq_value (flag true) (flag true) = true
eq_value (flag false) (flag false) = true
eq_value _ _ = false

-- A block has a type, settings, and components.
mutual
  pub data Component : Type 0 where
    parameter : String → Value → Component
    option : String → List String → Component
    comment : String → Component
    empty_line : Component
    block : String → List String → Components → Component

  pub data Components : Type 0 where
    nil : Components
    cons : Component → Components → Components

pub record Block : Type 0 where
  pub block_type : String
  pub settings : List String
  pub components : Components

-- A block with its parent, the parent of this, and so on.
pub record Located : Type 0 where
  pub here : Block
  pub parents : List Block

-- `DHCPDConfParameter.__init__`: some words stand for true and false.
unfoldable pub parameter_value : (String → String) → Value → Value
parameter_value lower (flag b) = flag b
parameter_value lower (text s) =
    if contains (lower s) ("yes" ∷ "true" ∷ "on" ∷ [])
    then flag true
    else if contains (lower s) ("no" ∷ "false" ∷ "off" ∷ [])
    then flag false
    else text s

-- The parameters of a block, the last of each key.
unfoldable pub own_parameters : Components → Dict Value → Dict Value
own_parameters nil d = d
own_parameters (cons (parameter k v) cs) d = own_parameters cs (insert k v d)
own_parameters (cons _ cs) d = own_parameters cs d

unfoldable pub own_options : Components → Dict (List String) → Dict (List String)
own_options nil d = d
own_options (cons (option k v) cs) d = own_options cs (insert k v d)
own_options (cons _ cs) d = own_options cs d

-- The entries of the first dict for keys that the other does not have.
unfoldable pub add_missing : {V : Type 0} → Dict V → Dict V → Dict V
add_missing [] d = d
add_missing ((k, v) ∷ e) d = elim (lookup k d) [
  | none ↦ add_missing e (insert k v d)
  | some _ ↦ add_missing e d
]

-- `inherit and self.type != inherit`
abbrev pub inherits : Option String → Block → Bool
inherits none b = false
inherits (some t) b = not (t == "") && not (b.block_type == t)

-- `get_parameters_hash(inherit)` of a block with these parents.
unfoldable pub parameters_of : Option String → Block → List Block → Dict Value
parameters_of inherit b [] = own_parameters b.components []
parameters_of inherit b (p ∷ ps) =
    let above = parameters_of inherit p ps in
    if inherits inherit b
    then add_missing above (own_parameters b.components [])
    else own_parameters b.components []

-- `get_options_hash(inherit)`
unfoldable pub options_of : Option String → Block → List Block → Dict (List String)
options_of inherit b [] = own_options b.components []
options_of inherit b (p ∷ ps) =
    let above = options_of inherit p ps in
    if inherits inherit b
    then add_missing above (own_options b.components [])
    else own_options b.components []

-- `not type or component.type == type`
abbrev has_type : Option String → String → Bool
has_type none t = true
has_type (some s) t = (s == "") || (t == s)

-- `get_blocks(type, recursive)` of the components of the block that is the first of the parents.
unfoldable pub blocks_in : Option String → Bool → Components → List Block → List Located
blocks_in t recursive nil parents = []
blocks_in t recursive (cons (block s settings inner) cs) parents =
    let b : Block = record { block_type = s; settings = settings; components = inner } in
    let deeper = blocks_in t recursive inner (b ∷ parents) in
    let others = blocks_in t recursive cs parents in
    (if has_type t s then record { here = b; parents = parents } ∷ [] else [])
    ++ ((if recursive then deeper else []) ++ others)
blocks_in t recursive (cons _ cs) parents = blocks_in t recursive cs parents

unfoldable pub get_blocks : Option String → Bool → Located → List Located
get_blocks t recursive l = blocks_in t recursive l.here.components (l.here ∷ l.parents)
