-- ===== src/Acl/Samples.antt =====
-- Tests of access control entries: "host_getObjects" for the administrators and for oneself.
use opsiconfd.Prelude.{String, List, [], ◌∷◌, ◌≡◌, refl, some, true, ◌||◌, any}
use opsiconfd.Prelude.Dict.{lookup}
use opsiconfd.Prelude.Text.{contains}
use opsiconfd.Prelude.Effect.{done}
use opsiconfd.Sessions.Store.{is_empty}
use opsiconfd.Sessions.Samples.{admin_session}
use opsiconfd.Acl.{self, sys_group, Ace, pick_all, get_ace}
use opsiconfd.Acl.Columns.{null, if_client, select_by, select_of, column_select}
use opsiconfd.Acl.Granted.{Answered, get_ace-IsFor}
use opsiconfd.Acl.Shown.{permits, column_select-permitted}

abbrev administrators : Ace
administrators = record {
  ace_type = sys_group;
  id = some "opsiadmin";
  allowed_attributes = [];
  denied_attributes = [];
}

-- Everything of oneself but the key.
abbrev oneself : Ace
oneself = record {
  ace_type = self;
  id = some "pc1.opsi.test";
  allowed_attributes = [];
  denied_attributes = "opsiHostKey" ∷ [];
}

abbrev entry : String × List Ace
entry = ("host_getObjects", oneself ∷ administrators ∷ [])

got : get_ace (entry ∷ []) "host_getObjects" (some admin_session) ≡ done (administrators ∷ [])
unfolding get_ace pick_all lookup contains
got = refl

get_ace-IsFor_example :
    Answered admin_session (get_ace (entry ∷ []) "host_getObjects" (some admin_session))
get_ace-IsFor_example = get_ace-IsFor "host_getObjects" entry [] admin_session

selected :
    column_select (some "hostId") (oneself ∷ []) [] "notes"
    ≡ done (some (if_client (some "pc1.opsi.test") null))
unfolding column_select select_by select_of contains
selected = refl

column_select-permitted_example :
    (is_empty (oneself ∷ []) || any (permits "pc1.opsi.test" "notes") (oneself ∷ [])) ≡ true
column_select-permitted_example =
    column_select-permitted "pc1.opsi.test" "notes" (some "hostId") (oneself ∷ []) []
      (if_client (some "pc1.opsi.test") null) refl selected refl
