-- ===== src/Messagebus/Access.antt =====
-- `_check_channel_access` and `_check_message_type_access` of opsiconfd/messagebus/websocket.py.
use opsiconfd.Prelude.{
  String, List, Option, none, some, Bool, true, false, ◌&&◌, ◌||◌, if◌then◌else◌, ◌==◌,
}
use text.Mathlib.Text.{starts_with}
use opsiconfd.Prelude.Text.{contains}
use opsiconfd.Messagebus.Names.{Names, check_channel_name, ends_with}

-- What a channel is accessed for.
pub data Access : Type 0 where
  read write : Access

abbrev pub is_write : Access → Bool
is_write write = true
is_write read = false

-- The name of the channel has been checked already.
unfoldable pub allows : String → Bool → Access → String → Bool
allows user is_admin access channel =
    starts_with channel "session:"
    || (channel == user)
    || (starts_with channel "service:"
        && (ends_with channel ":messagebus" || ends_with channel ":jsonrpc")
        && is_write access)
    || is_admin

-- `_check_channel_access`: none is a ValueError.
unfoldable pub check_channel_access : Names → String → Bool → Access → String → Option Bool
check_channel_access names user is_admin access channel = elim (check_channel_name names channel) [
  | none ↦ none
  | some c ↦ some (allows user is_admin access c)
]

-- `RESTRICTED_MESSAGE_TYPES` has one entry.
unfoldable pub check_message_type_access : List String → String → Bool
check_message_type_access available_modules message_type =
    if message_type == "process_start_request" then contains "vpn" available_modules else true
