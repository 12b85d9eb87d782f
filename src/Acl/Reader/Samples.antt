-- ===== src/Acl/Reader/Samples.antt =====
-- Tests of the file of access control entries.
use opsiconfd.Prelude.{List, [], ◌∷◌, none, some, not, ◌==◌, map, ◌≡◌, refl}
use opsiconfd.Prelude.Text.{contains}
use opsiconfd.Prelude.Split.{split, cut, drop_text, count_char}
use opsiconfd.Prelude.Strip.{strip, strip_start, strip_rest, replace_from}
use opsiconfd.Prelude.Effect.{done, raised}
use opsiconfd.Sessions.Samples.{admin_session}
use opsiconfd.Acl.{self, sys_group, sys_user, opsi_depotserver, Ace, get_ace}
use opsiconfd.Acl.Reader.{
  Reading, value_error, index_error, take_param, take_char, end_part, take_params, add_attributes,
  strip_values, add_char, without_last, read_typed, read_entry, read_entries, read_line, read_lines,
  read_acl_file,
}
use opsiconfd.Acl.Reader.Wide.{for_piece, read_typed-split, get_ace-wide}

abbrev reading : Reading
reading = record {
  admingroup = "opsiadmin";
  fileadmingroup = "opsifileadmins";
  is_pattern = λ s. not (s == "*");
}

file_read :
    read_acl_file reading
      "# who may what\nxyz_.*: opsi_depotserver(attributes(id,name))\nabc : self(attributes(!opsiHostKey));sys_group({admingroup}, group 2, attributes(!opsiHostKey))\n"
    ≡ done (
        (
          "xyz_.*",
          record {
            ace_type = opsi_depotserver;
            id = none;
            allowed_attributes = "id" ∷ "name" ∷ [];
            denied_attributes = [];
          },
        )
        ∷ (
          "abc",
          record {
            ace_type = self;
            id = none;
            allowed_attributes = [];
            denied_attributes = "opsiHostKey" ∷ [];
          },
        )
        ∷ (
          "abc",
          record {
            ace_type = sys_group;
            id = some "opsiadmin";
            allowed_attributes = [];
            denied_attributes = "opsiHostKey" ∷ [];
          },
        )
        ∷ (
          "abc",
          record {
            ace_type = sys_group;
            id = some "group 2";
            allowed_attributes = [];
            denied_attributes = "opsiHostKey" ∷ [];
          },
        )
        ∷ [])
unfolding read_acl_file read_lines read_line read_entries read_entry read_typed take_params
    take_char end_part take_param add_attributes strip_values add_char without_last split cut
    drop_text strip strip_start strip_rest replace_from contains
file_read = refl

-- Nothing behind the parenthesis, no parameter for users, an unknown type, a value that is not closed.
refused :
    map (read_entry reading) ("self(" ∷ "sys_user" ∷ "everyone" ∷ "self(attributes(id)" ∷ [])
    ≡ raised index_error ∷ raised value_error ∷ raised value_error ∷ raised value_error ∷ []
unfolding read_entry read_typed take_params take_char end_part without_last cut strip strip_start
    strip_rest add_char
refused = refl

read_typed-split_example :
    read_typed reading sys_user "adminuser, backup"
    ≡ done (map (for_piece reading sys_user) (split b',' "adminuser, backup"))
unfolding count_char without_last split contains strip strip_start strip_rest
read_typed-split_example =
    read_typed-split reading sys_user "adminuser, backup" refl (refl, refl, refl, refl, refl)

-- A comma at the end belongs to the name.
comma_read :
    read_typed reading sys_user "backup," ≡ done (for_piece reading sys_user "backup," ∷ [])
unfolding read_typed take_params take_char end_part take_param strip strip_start strip_rest
comma_read = refl

-- The comma at the start admits each user.
wide_read :
    read_typed reading sys_user ",backup"
    ≡ done (map (for_piece reading sys_user) ("" ∷ "backup" ∷ []))
unfolding read_typed take_params take_char end_part take_param strip strip_start strip_rest
wide_read = refl

get_ace-wide_example :
    (a : Ace) × (rest : List Ace) × (get_ace
        (("host_getObjects", map (for_piece reading sys_user) ("" ∷ "backup" ∷ [])) ∷ [])
        "host_getObjects"
        (some admin_session)
      ≡ done (a ∷ rest))
unfolding count_char without_last split contains strip strip_start strip_rest
get_ace-wide_example =
    get_ace-wide reading sys_user ",backup" "host_getObjects" []
      (map (for_piece reading sys_user) ("" ∷ "backup" ∷ [])) admin_session refl
      (refl, refl, refl, refl, refl) refl wide_read refl
