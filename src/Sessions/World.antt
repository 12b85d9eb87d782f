-- ===== src/Sessions/World.antt =====
-- What the code of opsiconfd/session.py works on beside the session: redis, the clock, the known
-- depots, its configuration, and the code that it calls.
use opsiconfd.Prelude.{ℕ, ◌+◌, String, List, Option, Bool, leb}
use opsiconfd.Prelude.Dict.{Dict}
use opsiconfd.Prelude.Effect.{Effect}
use opsiconfd.Sessions.Data.{AuthenticationMethod, Host, Session}

pub data Error : Type 0 where
  authentication_error permission_denied connection_refused : Error
  runtime_error assertion_error value_error index_error key_error validation_error : Error
  http_exception : (status_code : ℕ) (headers : Dict String) → Error

-- The fields of a session in redis, by name, as the bytes that redis keeps.
abbrev pub Row : Type 0
Row = Dict String

-- `clock` is the time, which stands still while a handler runs, and `drawn` counts the uuids drawn.
pub record World : Type 0 where
  pub rows : Dict Row
  pub blocked : Dict ℕ
  pub failed_auth : List (String × ℕ)
  pub depot_addresses : Dict ℕ
  pub clock : ℕ
  pub drawn : ℕ

pub record Config : Type 0 where
  pub session_lifetime : ℕ
  pub max_session_per_ip : ℕ
  pub max_sessions_excludes : List String
  pub allow_host_key_only_auth : Bool
  pub client_cert_auth : List String
  pub update_ip : Bool
  pub monitoring_user : String
  pub multi_factor_auth : String
  pub admin_networks : List String
  pub networks : List String
  pub min_configed_version : Option String
  pub max_auth_failures : ℕ
  pub auth_failures_interval : ℕ
  pub client_block_time : ℕ
  pub admin_group : String
  pub file_admin_group : String

-- How hosts are searched for.
pub data HostFilter : Type 0 where
  by_key : Option String → HostFilter
  by_hardware_address by_system_uuid by_id : String → HostFilter

pub record User : Type 0 where
  pub otp_secret : Option String
  pub mfa_active : Bool

-- `AuthenticationModule`: PAM or LDAP. Where it raises an exception for a user that it has accepted, it
-- gives `none`.
pub record AuthModule : Type 0 where
  pub accepts : String → String → Bool
  pub method : AuthenticationMethod
  pub group_names : String → Option (List String)
  pub user_is_admin : String → Option Bool
  pub user_is_read_only : String → Option Bool

-- What the code calls: the database, functions of opsicommon, pyotp and packaging, Python's own, and
-- functions of opsiconfd/utils. `without sub s` is
-- `s.replace(sub, "")`, and `bucket_counts` the counts in the answer of redis to `ts.range` with the
-- aggregation `count`. `updates_host` and `updates_user` say whether the database takes the update of a
-- host, with the address that it is given, and of a user, or raises an exception.
pub record Env : Type 0 where
  pub uuid : ℕ → String
  pub redis_key : String
  pub ip_address_to_redis_key : String → String
  pub ip_address_in_network : String → String → Bool
  pub lower : String → String
  pub strip : String → String
  pub without : String → String → String
  pub decode_base64 : String → Option String
  pub int_of : String → Option ℕ
  pub decimal : ℕ → String
  pub encode_host : Host → String
  pub decode_host : String → Option Host
  pub encode_texts : List String → String
  pub decode_texts : String → Option (List String)
  pub same_host : Host → Host → Bool
  pub find_hosts : HostFilter → List Host
  pub force_hardware_address : String → Option String
  pub force_uuid : String → Option String
  pub looks_like_host_id : String → Bool
  pub looks_like_hardware_address : String → Bool
  pub vpn_module_available : Bool
  pub user_password : String → Option String
  pub auth_module : Option AuthModule
  pub find_user : String → Option User
  pub updates_host : Host → Option String → Bool
  pub updates_user : String → Bool
  pub totp_accepts : String → String → Bool
  pub bucket_counts : (times : List ℕ) (since until bucket : ℕ) → List ℕ
  pub split_otp : String → Option (String × String)
  pub configed_version : String → Option String
  pub version_lt : String → String → Bool

-- A method of a session, which may change it and the world.
abbrev pub Act : Type 0 → Type 0
Act = Effect (Session × World) Error

abbrev pub clock_of : Session × World → ℕ
clock_of st = st.1.clock

-- `validity <= 0`; a session used at `last_used` is valid for `max_age` seconds.
abbrev pub is_expired : ℕ → Session → Bool
is_expired clock s = leb (s.max_age + s.last_used) clock
