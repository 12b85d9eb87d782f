-- ===== src/Acl.antt =====
-- Access control entries: `RPCACE` of opsiconfd/backend/auth.py, how they are read, which of them a
-- session gets (`ProtectedBackend._get_ace` and `_check_role` of opsiconfd/backend/rpc/main.py), and
-- what they show of the database (`get_columns` and `get_allowed_client_ids` of
-- opsiconfd/backend/mysql/__init__.py).
pub mod Columns
pub mod Granted
pub mod Shown
pub mod Reader
mod Samples
use opsiconfd.Prelude.{
  String, List, [], ◌∷◌, Option, none, some, Bool, true, false, not, ◌&&◌, ◌||◌, if◌then◌else◌,
  ◌==◌,
}
use opsiconfd.Prelude.Text.{truthy, eq_option, contains}
use opsiconfd.Prelude.Dict.{Dict, lookup}
use opsiconfd.Prelude.Effect.{Outcome, done, raised}
use opsiconfd.Sessions.Data.{HostType, client, depotserver, configserver, Host, Session}
use opsiconfd.Sessions.World.{Error, permission_denied, value_error}

pub data AceType : Type 0 where
  all self opsi_depotserver opsi_client sys_group sys_user : AceType

-- The pattern of the methods is used where the entries are put into the table of the methods.
pub record Ace : Type 0 where
  pub ace_type : AceType
  pub id : Option String
  pub allowed_attributes : List String
  pub denied_attributes : List String

-- The entries for each method of the interface: those whose pattern matches it.
abbrev pub Acl : Type 0
Acl = Dict (List Ace)

pub data UserType : Type 0 where
  a_user a_client a_depot : UserType

abbrev pub user_type : Session → UserType
user_type s = elim s.host [
  | none ↦ a_user
  | some h ↦ elim h.host_type [ client ↦ a_client | depotserver ↦ a_depot | configserver ↦ a_depot ]
]

-- `not ace.id or ace.id == session.username`
abbrev pub names_user : Session → Ace → Bool
names_user s a = not (truthy a.id) || eq_option a.id (some s.username)

abbrev pub names_group : Session → Ace → Bool
names_group s a =
    not (truthy a.id) || elim a.id [ none ↦ false | some g ↦ contains g s.user_groups ]

abbrev pub when_true : Bool → Ace → Option Ace
when_true true a = some a
when_true false a = none

-- What the loop appends for an entry. For an entry for oneself the code writes the id into the entry
-- that all sessions share and appends a copy of it; here the two are one step, as they are for a single
-- thread.
abbrev pub pick_of : AceType → UserType → Session → Ace → Option Ace
pick_of all u s a = some a
pick_of sys_user a_user s a = when_true (names_user s a) a
pick_of sys_group a_user s a = when_true (names_group s a) a
pick_of self a_client s a = some (record a { id = some s.username })
pick_of self a_depot s a = some (record a { id = some s.username })
pick_of opsi_client a_client s a = when_true (names_user s a) a
pick_of opsi_depotserver a_depot s a = when_true (names_user s a) a
pick_of _ u s a = none

abbrev pub prepend : Option Ace → List Ace → List Ace
prepend none aces = aces
prepend (some a) aces = a ∷ aces

-- The loop over the entries.
unfoldable pub pick_all : Session → List Ace → List Ace
pick_all s [] = []
pick_all s (a ∷ aces) = prepend (pick_of a.ace_type (user_type s) s a) (pick_all s aces)

abbrev pub or_denied : List Ace → Outcome Error (List Ace)
or_denied [] = raised permission_denied
or_denied (a ∷ aces) = done (a ∷ aces)

abbrev pub entries : String → Acl → List Ace
entries method acl = elim (lookup method acl) [ none ↦ [] | some aces ↦ aces ]

-- `_get_ace`; a server with no entries at all checks none.
unfoldable pub get_ace : Acl → String → Option Session → Outcome Error (List Ace)
unfolding pick_all
get_ace [] method session = done []
get_ace (entry ∷ acl) method none = raised permission_denied
get_ace (entry ∷ acl) method (some s) = or_denied (pick_all s (entries method (entry ∷ acl)))

-- `_check_role`
unfoldable pub check_role : String → Option Session → Outcome Error (Unit {0})
check_role role none = raised permission_denied
check_role role (some s) =
    if role == "admin"
    then if s.is_admin then done tt else raised permission_denied
    else raised value_error
