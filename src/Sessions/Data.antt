-- ===== src/Sessions/Data.antt =====
-- `OPSISession` of opsiconfd/session.py: its attributes, and the setters that remember what changed.
use opsiconfd.Prelude.{
  ℕ, String, List, [], ◌∷◌, ◌++◌, Option, none, some, Bool, true, false, not, ◌&&◌, if◌then◌else◌,
  ◌==◌, eqb, any, all,
}
use opsiconfd.Prelude.Text.{contains}

pub data AuthenticationMethod : Type 0 where
  admin_networks hardware_address host_id host_key not_set : AuthenticationMethod
  password_file password_ldap password_onetime password_pam : AuthenticationMethod
  system_uuid tls_certificate totp username_method : AuthenticationMethod

-- The values of the enumeration, which is one of strings.
abbrev pub method_value : AuthenticationMethod → String
method_value admin_networks = "admin_networks"
method_value hardware_address = "hardware_address"
method_value host_id = "host_id"
method_value host_key = "host_key"
method_value not_set = "not_set"
method_value password_file = "password_file"
method_value password_ldap = "password_ldap"
method_value password_onetime = "password_onetime"
method_value password_pam = "password_pam"
method_value system_uuid = "system_uuid"
method_value tls_certificate = "tls_certificate"
method_value totp = "totp"
method_value username_method = "username"

-- `getType()` of an opsicommon host.
pub data HostType : Type 0 where
  client depotserver configserver : HostType

-- What the code reads of an opsicommon host.
pub record Host : Type 0 where
  pub id : String
  pub host_type : HostType
  pub opsi_host_key : Option String
  pub one_time_password : Option String
  pub ip_address : Option String

-- The attributes that are stored in redis.
pub data Attribute : Type 0 where
  version client_addr user_agent max_age created last_used messagebus_last_used : Attribute
  username user_groups host authenticated auth_methods is_admin is_read_only : Attribute

abbrev pub attribute_name : Attribute → String
attribute_name version = "version"
attribute_name client_addr = "client_addr"
attribute_name user_agent = "user_agent"
attribute_name max_age = "max_age"
attribute_name created = "created"
attribute_name last_used = "last_used"
attribute_name messagebus_last_used = "messagebus_last_used"
attribute_name username = "username"
attribute_name user_groups = "user_groups"
attribute_name host = "host"
attribute_name authenticated = "authenticated"
attribute_name auth_methods = "auth_methods"
attribute_name is_admin = "is_admin"
attribute_name is_read_only = "is_read_only"

-- Times are whole seconds. `modifications` is a dict of times, of which only the keys are read.
pub record Session : Type 0 where
  pub password : Option String
  pub deleted : Bool
  pub persistent : Bool
  pub last_stored : ℕ
  pub session_id : Option String
  pub modifications : List Attribute
  pub version : String
  pub client_addr : String
  pub user_agent : String
  pub max_age : ℕ
  pub created : ℕ
  pub last_used : ℕ
  pub messagebus_last_used : ℕ
  pub username : String
  pub user_groups : List String
  pub host : Option Host
  pub authenticated : Bool
  pub auth_methods : List AuthenticationMethod
  pub is_admin : Bool
  pub is_read_only : Bool

abbrev pub is_attribute : Attribute → Attribute → Bool
is_attribute a b = attribute_name a == attribute_name b

abbrev pub is_modified : Attribute → List Attribute → Bool
is_modified a = any (is_attribute a)

-- `_set_modified`
unfoldable pub set_modified : Attribute → Session → Session
set_modified a s = record s {
  modifications =
      if is_modified a s.modifications then s.modifications else s.modifications ++ a ∷ [];
}

-- `set(a) == set(b)`
abbrev same_set : List String → List String → Bool
same_set a b = all (λ x. contains x b) a && all (λ x. contains x a) b

abbrev values : List AuthenticationMethod → List String
values [] = []
values (m ∷ ms) = method_value m ∷ values ms

abbrev eq_bool : Bool → Bool → Bool
eq_bool true b = b
eq_bool false b = not b

-- The setters: an attribute that keeps its value is not modified.
unfoldable pub set_version : String → Session → Session
unfolding set_modified
set_version v s = if s.version == v then s else set_modified version (record s { version = v })

pub set_client_addr : String → Session → Session
unfolding set_modified
set_client_addr v s =
    if s.client_addr == v then s else set_modified client_addr (record s { client_addr = v })

pub set_user_agent : String → Session → Session
unfolding set_modified
set_user_agent v s =
    if s.user_agent == v then s else set_modified user_agent (record s { user_agent = v })

unfoldable pub set_created : ℕ → Session → Session
unfolding set_modified
set_created v s = if eqb s.created v then s else set_modified created (record s { created = v })

unfoldable pub set_last_used : ℕ → Session → Session
unfolding set_modified
set_last_used v s =
    if eqb s.last_used v then s else set_modified last_used (record s { last_used = v })

pub set_messagebus_last_used : ℕ → Session → Session
unfolding set_modified
set_messagebus_last_used v s =
    if eqb s.messagebus_last_used v
    then s
    else set_modified messagebus_last_used (record s { messagebus_last_used = v })

unfoldable pub set_username : String → Session → Session
unfolding set_modified
set_username v s = if s.username == v then s else set_modified username (record s { username = v })

unfoldable pub set_user_groups : List String → Session → Session
unfolding set_modified
set_user_groups v s =
    if same_set s.user_groups v then s else set_modified user_groups (record s { user_groups = v })

-- `==` on hosts is opsicommon's.
unfoldable pub set_host : (Host → Host → Bool) → Option Host → Session → Session
unfolding set_modified
set_host same none s = elim s.host [
  | none ↦ s
  | some h ↦ set_modified host (record s { host = none })
]
set_host same (some v) s = elim s.host [
  | none ↦ set_modified host (record s { host = some v })
  | some h ↦ if same h v then s else set_modified host (record s { host = some v })
]

unfoldable pub set_authenticated : Bool → Session → Session
unfolding set_modified
set_authenticated v s =
    if eq_bool s.authenticated v
    then s
    else set_modified authenticated (record s { authenticated = v })

unfoldable pub set_auth_methods : List AuthenticationMethod → Session → Session
unfolding set_modified
set_auth_methods v s =
    if same_set (values s.auth_methods) (values v)
    then s
    else set_modified auth_methods (record s { auth_methods = v })

-- `add_auth_methods` with one method.
unfoldable pub add_auth_method : AuthenticationMethod → Session → Session
unfolding set_modified
add_auth_method m s = set_modified auth_methods (record s {
  auth_methods =
      if contains (method_value m) (values s.auth_methods)
      then s.auth_methods
      else s.auth_methods ++ m ∷ [];
})

unfoldable pub set_is_admin : Bool → Session → Session
unfolding set_modified
set_is_admin v s =
    if eq_bool s.is_admin v then s else set_modified is_admin (record s { is_admin = v })

unfoldable pub set_is_read_only : Bool → Session → Session
unfolding set_modified
set_is_read_only v s =
    if eq_bool s.is_read_only v
    then s
    else set_modified is_read_only (record s { is_read_only = v })

unfoldable pub set_max_age : ℕ → Session → Session
unfolding set_modified
set_max_age v s = if eqb s.max_age v then s else set_modified max_age (record s { max_age = v })
