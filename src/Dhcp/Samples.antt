-- ===== src/Dhcp/Samples.antt =====
-- A dhcpd.conf with a subnet and a group, a host that is added, and the runs of the claims on it.
use opsiconfd.Prelude.{String, [], ◌∷◌, some, true, ◌≡◌, refl, ◌==◌, length, arith, eq_iff}
use opsiconfd.Prelude.Int.{◌+ℤ◌}
use opsiconfd.Prelude.Text.{contains}
use opsiconfd.Prelude.Dict.{Dict, insert, lookup, remove}
use opsiconfd.Prelude.Effect.{done}
use opsiconfd.Dhcp.Blocks.{
  Components, Value, text, flag, Component, parameter, block, nil, cons, Located, parameter_value,
  own_parameters, parameters_of, blocks_in, get_blocks, add_missing,
}
use opsiconfd.Dhcp.Hosts.{
  Checks, HostData, new_host, new_block, check_data, find_existing, choose_parent, choose_subnet,
  choose_group, read_parameters, remove_inherited, match_count, parameter_components,
  remove_components, remove_at, hosts,
}
use opsiconfd.Dhcp.Modify.{modify_host, find_modified, change_block}
use opsiconfd.Dhcp.Replaced.{IsReplaced, modify_host-every_second}
use opsiconfd.Dhcp.Kept.{new_host-parameters_of}

abbrev checks : Checks
checks = record {
  lower = λ s. s;
  host_name = some;
  hardware_address = some;
  ip_address = some;
  in_network = λ ip net. net == "10.0.0.0/255.0.0.0";
}

abbrev group : Component
group = block "group" ("group" ∷ []) (cons (parameter "next-server" (text "10.0.0.1")) nil)

abbrev subnet : Component
subnet =
    block "subnet" ("subnet" ∷ "10.0.0.0" ∷ "netmask" ∷ "255.0.0.0" ∷ [])
      (cons (parameter "use-host-decl-names" (flag true)) (cons group nil))

abbrev root : Located
root = record {
  here = record { block_type = "global"; settings = []; components = cons subnet nil };
  parents = [];
}

abbrev pc : HostData
pc = record {
  hostname = "pc.uib.local";
  hardware = "00:0c:29:11:22:33";
  ip = "10.0.0.7";
  fixed_address = "10.0.0.7";
  parameters = ("next-server", text "10.0.0.1") ∷ ("always-broadcast", text "on") ∷ [];
}

abbrev subnet_found : Located
subnet_found = record {
  here = record {
    block_type = "subnet";
    settings = "subnet" ∷ "10.0.0.0" ∷ "netmask" ∷ "255.0.0.0" ∷ [];
    components = cons (parameter "use-host-decl-names" (flag true)) (cons group nil);
  };
  parents = root.here ∷ [];
}

abbrev group_found : Located
group_found = record {
  here = record {
    block_type = "group";
    settings = "group" ∷ [];
    components = cons (parameter "next-server" (text "10.0.0.1")) nil;
  };
  parents = subnet_found.here ∷ subnet_found.parents;
}

pc_added : new_host checks pc root ≡ done (new_block checks pc group_found)
unfolding new_host check_data find_existing choose_parent choose_subnet choose_group blocks_in
    get_blocks match_count parameters_of own_parameters add_missing read_parameters parameter_value
    lookup insert contains ◌+ℤ◌
pc_added = refl

-- The block of the host has not the parameter that the group has.
pc_has : length (own_parameters (new_block checks pc group_found).here.components []) ≡ 3
unfolding new_block remove_inherited own_parameters parameters_of add_missing read_parameters
    parameter_components remove lookup insert contains parameter_value
pc_has = refl

new_host-parameters_of_example :
    lookup "next-server" (
      parameters_of
        (some "global")
        (new_block checks pc group_found).here
        (new_block checks pc group_found).parents)
    ≡ some (parameter_value checks.lower (text "10.0.0.1"))
unfolding lookup
new_host-parameters_of_example =
    new_host-parameters_of checks pc root (new_block checks pc group_found) "next-server"
      (text "10.0.0.1") (refl, (refl, tt)) pc_added
      (λ e. ground (arith, (eq_iff "next-server" "fixed-address").1 e))
      (λ e. ground (arith, (eq_iff "next-server" "hardware").1 e)) refl

-- A host with four parameters, of which the second and the fourth stay.
abbrev own : Components
own = cons (parameter "fixed-address" (text "10.0.0.7")) (
    cons (parameter "hardware" (text "ethernet 00:0c:29:11:22:33")) (
      cons (parameter "next-server" (text "10.0.0.1"))
        (cons (parameter "filename" (text "linux/pxelinux.0")) nil)))

abbrev file : Located
file = record {
  here = record {
    block_type = "global";
    settings = [];
    components = cons (block "host" ("host" ∷ "pc.uib.local" ∷ []) own) nil;
  };
  parents = [];
}

abbrev host : Located
host = record {
  here = record { block_type = "host"; settings = "host" ∷ "pc.uib.local" ∷ []; components = own };
  parents = file.here ∷ [];
}

abbrev changed : Dict Value
changed = ("filename", text "linux/grub") ∷ []

abbrev modified : Located
modified = record host {
  here = record host.here {
    components = cons (parameter "hardware" (text "ethernet 00:0c:29:11:22:33")) (
        cons (parameter "filename" (text "linux/pxelinux.0"))
          (cons (parameter "filename" (text "linux/grub")) nil));
  };
}

host_modified : modify_host checks "pc.uib.local" changed file ≡ done modified
unfolding modify_host find_modified change_block get_blocks blocks_in remove_components remove_at
    parameters_of own_parameters read_parameters parameter_value contains remove_inherited
    parameter_components
host_modified = refl

modify_host-every_second_example :
    (name : String) × (l : Located) × (checks.host_name "pc.uib.local" ≡ some name)
    × (find_modified checks name changed (hosts file) ≡ done (l ∷ []))
    × IsReplaced checks changed l modified
unfolding lookup
modify_host-every_second_example =
    modify_host-every_second checks "pc.uib.local" changed file modified (refl, tt) host_modified
