-- ===== src/Sessions/Samples.antt =====
-- A server for the tests of the sessions: the host "pc1.opsi.test", the user "admin", who is an
-- administrator, and the address 10.0.0.5.
mod Logins
mod Kept
use opsiconfd.Prelude.{
  ℕ, zero, suc, ◌+◌, String, List, [], ◌∷◌, Option, none, some, Bool, true, false, if◌then◌else◌,
  ◌==◌,
}
use opsiconfd.Prelude.Dict.{Dict}
use opsiconfd.Sessions.Data.{password_pam, HostType, client, Host, Session}
use opsiconfd.Sessions.World.{Row, World, Config, HostFilter, User, AuthModule, Env}
use opsiconfd.Sessions.Manager.{Manager}
use opsiconfd.Sessions.Request.{Request, App}

abbrev pub pc1 : Host
pc1 = record {
  id = "pc1.opsi.test";
  host_type = client;
  opsi_host_key = some "0123";
  one_time_password = none;
  ip_address = none;
}

abbrev module_pam : AuthModule
module_pam = record {
  accepts = λ name password. password == "secret";
  method = password_pam;
  group_names = λ name. some ("opsiadmin" ∷ []);
  user_is_admin = λ name. some (name == "admin");
  user_is_read_only = λ name. some false;
}

-- `count` of the times in a list.
abbrev size : List ℕ → ℕ
size [] = 0
size (x ∷ xs) = suc (size xs)

abbrev pub env : Env
env = record {
  uuid = λ n. elim n [ zero ↦ "u0" | suc k ↦ "u1" ];
  redis_key = "opsiconfd:sessions";
  ip_address_to_redis_key = λ a. a;
  ip_address_in_network = λ a n. n == "10.0.0.0/8";
  lower = λ s. s;
  strip = λ s. s;
  without = λ a s. s;
  decode_base64 = λ s. if s == "YWRtaW46c2VjcmV0" then some "admin:secret" else none;
  int_of = λ s.
      if s == "120"
      then some 120
      else if s == "1"
      then some 1
      else if s == "0"
      then some 0
      else none;
  decimal = λ n. "120";
  encode_host = λ h. h.id;
  decode_host = λ s. some pc1;
  encode_texts = λ l. elim l [ [] ↦ "" | x ∷ xs ↦ x ];
  decode_texts = λ s. some (s ∷ []);
  same_host = λ g h. g.id == h.id;
  find_hosts = λ f. pc1 ∷ [];
  force_hardware_address = λ s. some s;
  force_uuid = λ s. some s;
  looks_like_host_id = λ s. s == "pc1.opsi.test";
  looks_like_hardware_address = λ s. false;
  vpn_module_available = true;
  user_password = λ s. none;
  auth_module = some module_pam;
  find_user = λ s. none;
  updates_host = λ h address. true;
  updates_user = λ s. true;
  totp_accepts = λ secret otp. false;
  bucket_counts = λ times since until bucket. size times ∷ [];
  split_otp = λ s. none;
  configed_version = λ s. none;
  version_lt = λ a b. false;
}

abbrev pub config : Config
config = record {
  session_lifetime = 120;
  max_session_per_ip = 2;
  max_sessions_excludes = "127.0.0.1" ∷ [];
  allow_host_key_only_auth = false;
  client_cert_auth = [];
  update_ip = false;
  monitoring_user = "monitoring";
  multi_factor_auth = "inactive";
  admin_networks = "10.1.0.0/16" ∷ [];
  networks = "10.0.0.0/8" ∷ [];
  min_configed_version = none;
  max_auth_failures = 1;
  auth_failures_interval = 120;
  client_block_time = 120;
  admin_group = "opsiadmin";
  file_admin_group = "pcpatch";
}

abbrev pub addr : String
addr = "10.0.0.5"

abbrev pub world : World
world = record {
  rows = [];
  blocked = [];
  failed_auth = [];
  depot_addresses = [];
  clock = 1000;
  drawn = 0;
}

-- A session that no one has logged in to.
abbrev pub session : Session
session = record {
  password = none;
  deleted = false;
  persistent = true;
  last_stored = 0;
  session_id = some "u0";
  modifications = [];
  version = "u1";
  client_addr = "10.0.0.5";
  user_agent = "opsi-script";
  max_age = 120;
  created = 1000;
  last_used = 1000;
  messagebus_last_used = 0;
  username = "";
  user_groups = [];
  host = none;
  authenticated = false;
  auth_methods = [];
  is_admin = false;
  is_read_only = false;
}

abbrev pub manager : Manager
manager = record { sessions = []; should_stop = false }

abbrev pub app : App
app = record {
  overload_until = 0;
  maintenance = none;
  public_path = "/login" ∷ [];
  addon = λ req role session. (false, (role, session));
}

-- The session of the administrator.
abbrev pub admin_session : Session
admin_session = record session {
  username = "admin";
  user_groups = "opsiadmin" ∷ [];
  authenticated = true;
  is_admin = true;
}

abbrev pub key : String
key = "opsiconfd:sessions:10.0.0.5:u0"

-- Redis with the version of the session.
abbrev pub stored : World
stored = record world { rows = (key, ("version", "u1") ∷ []) ∷ [] }

abbrev pub with_admin : Manager
with_admin = record manager { sessions = ("u0", admin_session) ∷ [] }

-- A request with the cookie of the session.
abbrev pub request : String → Request
request path = record {
  client_addr = "10.0.0.5";
  scope_type = "http";
  full_path = path;
  method = some "GET";
  headers = ("cookie", "opsiconfd-session=u0") ∷ [];
  peer_cert_cn = none;
}
