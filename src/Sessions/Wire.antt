-- ===== src/Sessions/Wire.antt =====
-- `serialize` and `deserialize` of `OPSISession` in opsiconfd/session.py: a session as the fields of
-- a redis hash. Redis keeps bytes, a number in decimals.
pub mod RoundTrip
use opsiconfd.Prelude.{
  ℕ, String, List, [], ◌∷◌, Option, none, some, Bool, true, false, not, if◌then◌else◌, ◌==◌, eqb,
  map,
}
use opsiconfd.Sessions.Data.{
  AuthenticationMethod, method_value, Attribute, attribute_name, Session, Host, set_version,
  set_client_addr, set_user_agent, set_max_age, set_created, set_last_used,
  set_messagebus_last_used, set_username, set_user_groups, set_host, set_authenticated,
  set_auth_methods, set_is_admin, set_is_read_only,
}
use opsiconfd.Sessions.Data.{
  version, client_addr, user_agent, max_age, created, last_used, messagebus_last_used, username,
  user_groups, host, authenticated, auth_methods, is_admin, is_read_only,
}
use opsiconfd.Sessions.Data.{
  admin_networks, hardware_address, host_id, host_key, not_set, password_file, password_ldap,
  password_onetime, password_pam, system_uuid, tls_certificate, totp, username_method,
}
use opsiconfd.Sessions.World.{Row, Env}

-- The order in which `serialize` goes through the attributes.
abbrev pub all_attributes : List Attribute
all_attributes =
    version ∷ client_addr ∷ user_agent ∷ max_age ∷ created ∷ last_used ∷ messagebus_last_used
    ∷ username ∷ user_groups ∷ host ∷ authenticated ∷ auth_methods ∷ is_admin ∷ is_read_only ∷ []

abbrev pub all_methods : List AuthenticationMethod
all_methods =
    admin_networks ∷ hardware_address ∷ host_id ∷ host_key ∷ not_set ∷ password_file ∷ password_ldap
    ∷ password_onetime ∷ password_pam ∷ system_uuid ∷ tls_certificate ∷ totp ∷ username_method ∷ []

abbrev pub flag_text : Bool → String
flag_text true = "1"
flag_text false = "0"

module _ (env : Env) where
  -- The bytes of an attribute.
  unfoldable pub wire : Session → Attribute → String
  wire s version = s.version
  wire s client_addr = s.client_addr
  wire s user_agent = s.user_agent
  wire s max_age = env.decimal s.max_age
  wire s created = env.decimal s.created
  wire s last_used = env.decimal s.last_used
  wire s messagebus_last_used = env.decimal s.messagebus_last_used
  wire s username = s.username
  wire s user_groups = env.encode_texts s.user_groups
  wire s host = elim s.host [ none ↦ "" | some h ↦ env.encode_host h ]
  wire s authenticated = flag_text s.authenticated
  wire s auth_methods = env.encode_texts (map method_value s.auth_methods)
  wire s is_admin = flag_text s.is_admin
  wire s is_read_only = flag_text s.is_read_only

  -- `serialize`, of the attributes in a list.
  unfoldable pub serialize : Session → List Attribute → List (String × String)
  unfolding wire
  serialize s [] = []
  serialize s (a ∷ as') = (attribute_name a, wire s a) ∷ serialize s as'

-- What `deserialize` makes of a field.
pub data Value : Type 0 where
  text : String → Value
  a_host : Option Host → Value
  texts : List String → Value
  methods : List AuthenticationMethod → Value
  flag : Bool → Value

abbrev pub map_option : {A B : Type 0} → (A → B) → Option A → Option B
map_option f none = none
map_option f (some a) = some (f a)

-- `AuthenticationMethod(v)`; `none` is a ValueError.
pub method_of : String → List AuthenticationMethod → Option AuthenticationMethod
method_of v [] = none
method_of v (m ∷ ms) = let rest = method_of v ms in if method_value m == v then some m else rest

-- `set(AuthenticationMethod(v) for v in ...)`
pub methods_of : List String → Option (List AuthenticationMethod)
unfolding method_of
methods_of [] = some []
methods_of (v ∷ vs) = elim (method_of v all_methods) [
  | none ↦ none
  | some m ↦ map_option (λ ms. m ∷ ms) (methods_of vs)
]

abbrev find_attribute : String → List Attribute → Option Attribute
find_attribute name [] = none
find_attribute name (a ∷ as') =
    let rest = find_attribute name as' in if attribute_name a == name then some a else rest

-- The attribute with a name: the model drops a field with another one, of which the code makes an
-- attribute that it never reads.
unfoldable pub attribute_of : String → Option Attribute
attribute_of name = find_attribute name all_attributes

module _ (env : Env) where
  -- `bool(int(val))`
  abbrev pub flag_of : String → Option Bool
  flag_of v = map_option (λ n. not (eqb n 0)) (env.int_of v)

  abbrev methods_value : Option (List String) → Option Value
  methods_value none = none
  methods_value (some vs) = map_option methods (methods_of vs)

  -- The loop body of `deserialize`; `none` is an exception.
  pub deserialize_field : Attribute → String → Option Value
  unfolding methods_of
  deserialize_field host v =
      if v == "" then some (a_host none) else map_option (λ h. a_host (some h)) (env.decode_host v)
  deserialize_field user_groups v = map_option texts (env.decode_texts v)
  deserialize_field auth_methods v = methods_value (env.decode_texts v)
  deserialize_field authenticated v = map_option flag (flag_of v)
  deserialize_field is_admin v = map_option flag (flag_of v)
  deserialize_field is_read_only v = map_option flag (flag_of v)
  deserialize_field a v = some (text v)

  pub deserialize : Row → Option (List (Attribute × Value))
  unfolding deserialize_field attribute_of
  deserialize [] = some []
  deserialize ((name, v) ∷ row) = elim (attribute_of name) [
    | none ↦ deserialize row
    | some a ↦ elim (deserialize_field a v) [
      | none ↦ none
      | some value ↦ map_option (λ rest. (a, value) ∷ rest) (deserialize row)
    ]
  ]

  -- A setter that takes `int(value)`; `none` is a ValueError.
  abbrev set_number : (ℕ → Session → Session) → String → Session → Option Session
  set_number set v s = map_option (λ n. set n s) (env.int_of v)

  -- `setattr(self, attr, val)`
  pub set_attribute : Attribute → Value → Session → Option Session
  set_attribute version (text v) s = some (set_version v s)
  set_attribute client_addr (text v) s = some (set_client_addr v s)
  set_attribute user_agent (text v) s = some (set_user_agent v s)
  set_attribute max_age (text v) s = set_number set_max_age v s
  set_attribute created (text v) s = set_number set_created v s
  set_attribute last_used (text v) s = set_number set_last_used v s
  set_attribute messagebus_last_used (text v) s = set_number set_messagebus_last_used v s
  set_attribute username (text v) s = some (set_username v s)
  set_attribute user_groups (texts v) s = some (set_user_groups v s)
  set_attribute host (a_host v) s = some (set_host env.same_host v s)
  set_attribute authenticated (flag v) s = some (set_authenticated v s)
  set_attribute auth_methods (methods v) s = some (set_auth_methods v s)
  set_attribute is_admin (flag v) s = some (set_is_admin v s)
  set_attribute is_read_only (flag v) s = some (set_is_read_only v s)
  set_attribute a v s = some s

  pub set_attributes : List (Attribute × Value) → Session → Option Session
  unfolding set_attribute
  set_attributes [] s = some s
  set_attributes ((a, v) ∷ data') s = elim (set_attribute a v s) [
    | none ↦ none
    | some s' ↦ set_attributes data' s'
  ]
