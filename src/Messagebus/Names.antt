-- ===== src/Messagebus/Names.antt =====
-- The names of channels and users: opsiconfd/messagebus/__init__.py. A ValueError is `none`.
use opsiconfd.Prelude.{String, List, [], ◌∷◌, Option, none, some, Bool, if◌then◌else◌, ◌==◌, ◌||◌}
use Prim.Native.String.{◌++◌}
use text.Mathlib.Text.{starts_with}
use opsiconfd.Prelude.Text.{contains}
use opsiconfd.Prelude.Split.{split}

-- What the module calls: `str.lower`, `str.strip`, `str.replace`, `str(UUID(s))`, and the checks of
-- opsicommon. `uuid4` is the id that `create_messagebus_session_channel` draws.
pub record Names : Type 0 where
  pub lower : String → String
  pub strip : String → String
  pub replace : String → String → String → String
  pub uuid : String → Option String
  pub uuid4 : String
  pub host_id : String → Option String
  pub user_id : String → Option String
  pub node_name : String → Option String
  pub unsigned_int : String → Option String
  pub configserver_id : String

-- `":".join(parts)`
unfoldable pub join : List String → String
join [] = ""
join (p ∷ []) = p
join (p ∷ q ∷ ps) = p ++ ":" ++ join (q ∷ ps)

-- `s.endswith(t)`
unfoldable pub ends_with : String → String → Bool
ends_with String.[] t = String.[] == t
ends_with (String.◌∷◌ c s) t = (String.◌∷◌ c s == t) || ends_with s t

abbrev pub event_names : List String
event_names =
    "test" ∷ "app_state_changed" ∷ "config_created" ∷ "config_updated" ∷ "config_deleted"
    ∷ "configState_created" ∷ "configState_updated" ∷ "configState_deleted" ∷ "log_updated"
    ∷ "user_connected" ∷ "user_disconnected" ∷ "host_created" ∷ "host_updated" ∷ "host_deleted"
    ∷ "host_connected" ∷ "host_disconnected" ∷ "productOnClient_created" ∷ "productOnClient_updated"
    ∷ "productOnClient_deleted" ∷ []

-- The part at the position 1 of a name, read by `f`.
abbrev with_second : (String → Option String) → List String → Option String
with_second f (p ∷ q ∷ ps) = elim (f q) [ none ↦ none | some r ↦ some (join (p ∷ r ∷ ps)) ]
with_second f _ = none

module _ (names : Names) where
  open names use {lower, uuid, host_id, user_id, node_name, unsigned_int}

  -- The canonical id is computed and not used.
  unfoldable pub check_session : String → List String → Option String
  check_session channel (p ∷ q ∷ []) = elim (uuid q) [ none ↦ none | some _ ↦ some channel ]
  check_session channel _ = none

  unfoldable pub check_depot : List String → Option String
  check_depot (p ∷ q ∷ r ∷ s ∷ []) =
      if contains s ("jsonrpc" ∷ "terminal" ∷ "process" ∷ [])
      then (elim (host_id r) [ none ↦ none | some h ↦ some (join (p ∷ q ∷ h ∷ s ∷ [])) ])
      else none
  check_depot _ = none

  unfoldable pub check_node : List String → Option String
  check_node (p ∷ q ∷ []) = with_second node_name (p ∷ q ∷ [])
  check_node _ = none

  unfoldable pub check_worker : List String → Option String
  check_worker (p ∷ q ∷ r ∷ ps) = elim (node_name q) [
    | none ↦ none
    | some n ↦ elim (unsigned_int r) [ none ↦ none | some i ↦ some (join (p ∷ n ∷ i ∷ ps)) ]
  ]
  check_worker _ = none

  unfoldable pub check_event : String → List String → Option String
  check_event channel (p ∷ q ∷ []) = if contains q event_names then some channel else none
  check_event channel _ = none

  unfoldable pub check_service : String → Option String
  check_service channel =
      if channel == "service:messagebus"
      then some channel
      else if starts_with channel "service:depot:"
      then check_depot (split 58 channel)
      else none

  -- `check_channel_name`: the name of a channel as it is compared.
  unfoldable pub check_channel_name : String → Option String
  check_channel_name channel =
      if starts_with channel "session:"
      then check_session (lower channel) (split 58 (lower channel))
      else if starts_with channel "service:"
      then check_service (lower channel)
      else if starts_with channel "host:"
      then with_second host_id (split 58 (lower channel))
      else if starts_with channel "user:"
      then with_second user_id (split 58 (lower channel))
      else if starts_with channel "service_node:"
      then check_node (split 58 (lower channel))
      else if starts_with channel "service_worker:"
      then check_worker (split 58 (lower channel))
      else if starts_with channel "event:"
      then check_event channel (split 58 channel)
      else none

  -- `get_config_service_channel`, of a channel that starts with `service:config:`.
  unfoldable pub get_config_service_channel : String → String
  get_config_service_channel channel =
      names.replace channel "service:config:" ("service:depot:" ++ names.configserver_id ++ ":")

  unfoldable pub get_user_id_for_host : String → Option String
  get_user_id_for_host h = elim (host_id h) [ none ↦ none | some i ↦ some ("host:" ++ i) ]

  unfoldable pub get_user_id_for_user : String → Option String
  get_user_id_for_user u = elim (user_id u) [ none ↦ none | some i ↦ some ("user:" ++ i) ]

  unfoldable pub get_user_id_for_service_worker : String → String
  get_user_id_for_service_worker w = "service_worker:" ++ lower w
