-- ===== src/Dhcp/Hosts.antt =====
-- `add_host`, up to the block that it adds to the parent that it chooses, `get_host` of opsiconfd/dhcpd.py,
-- and `remove_components`.
use opsiconfd.Prelude.{
  ℕ, zero, suc, String, List, [], ◌∷◌, Option, none, some, Bool, true, false, ◌&&◌, if◌then◌else◌,
  ◌==◌, get_elem?, erase_idx, length,
}
use Prim.Native.String.{◌++◌ as ◌+++◌}
use opsiconfd.Prelude.Int.{ℤ, pos, negsuc, ◌+ℤ◌, ltb_ℤ}
use opsiconfd.Prelude.Dict.{Dict, lookup, remove}
use opsiconfd.Prelude.Effect.{Outcome, done, raised, ◌then_do◌, or_raise}
use opsiconfd.Dhcp.Blocks.{
  Value, text, flag, eq_value, parameter, Components, nil, cons, Located, parameter_value,
  parameters_of, get_blocks,
}

pub data HostError : Type 0 where
  invalid_argument index_error assertion_error : HostError
  same_fixed_address same_hardware_address : String → HostError
  found_times : ℕ → HostError

-- opsicommon's checks of arguments, and `str.lower`.
pub record Checks : Type 0 where
  pub lower : String → String
  pub host_name : String → Option String
  pub hardware_address : String → Option String
  pub ip_address : String → Option String
  pub in_network : String → String → Bool

-- What a new host is given.
pub record HostData : Type 0 where
  pub hostname : String
  pub hardware : String
  pub ip : String
  pub fixed_address : String
  pub parameters : Dict Value

-- `str(value)`
abbrev pub value_text : Value → String
value_text (text s) = s
value_text (flag true) = "True"
value_text (flag false) = "False"

abbrev pub name_of : Located → Outcome HostError String
name_of l = or_raise index_error (get_elem? l.here.settings 1)

-- `self._global_block.get_blocks("host", recursive=True)`
abbrev pub hosts : Located → List Located
hosts root = get_blocks (some "host") true root

module _ (checks : Checks) where
  open checks use {lower}

  -- The arguments as `add_host` checks them, each value of a parameter as one of a component has it.
  unfoldable pub read_parameters : Dict Value → Dict Value
  read_parameters [] = []
  read_parameters ((k, v) ∷ d) = (k, parameter_value lower v) ∷ read_parameters d

  unfoldable pub check_data : HostData → Outcome HostError HostData
  check_data h = or_raise invalid_argument (checks.host_name h.hostname) then_do λ name.
      or_raise invalid_argument (checks.hardware_address h.hardware) then_do λ address.
      or_raise invalid_argument (checks.ip_address h.ip) then_do λ ip. done (record {
        hostname = name;
        hardware = address;
        ip = ip;
        fixed_address = lower h.fixed_address;
        parameters = h.parameters;
      })

  -- The parameters of another host must not have an address of the new one.
  unfoldable pub check_addresses : HostData → String → Dict Value → Outcome HostError (Unit {0})
  check_addresses h name [] = done tt
  check_addresses h name ((k, v) ∷ d) =
      let rest = check_addresses h name d in
      if (k == "fixed-address") && (lower (value_text v) == h.fixed_address)
      then raised (same_fixed_address name)
      else if (k == "hardware") && (lower (value_text v) == "ethernet " +++ h.hardware)
      then raised (same_hardware_address name)
      else rest

  -- Whether a host has the name of the new one already.
  unfoldable pub find_existing : HostData → List Located → Bool → Outcome HostError Bool
  find_existing h [] found = done found
  find_existing h (l ∷ ls) found = name_of l then_do λ name. elim (lower name == h.hostname) [
    | true ↦ find_existing h ls true
    | false ↦ check_addresses h name (parameters_of none l.here l.parents) then_do λ _.
        find_existing h ls found
  ]

  -- The last subnet that has the address.
  unfoldable pub choose_subnet : String → List Located → Located → Outcome HostError Located
  choose_subnet ip [] parent = done parent
  choose_subnet ip (l ∷ ls) parent =
      or_raise index_error (get_elem? l.here.settings 1) then_do λ net.
      or_raise index_error (get_elem? l.here.settings 3) then_do λ mask.
      choose_subnet ip ls (if checks.in_network ip (net +++ "/" +++ mask) then l else parent)

  -- How well the parameters of a group match those of the host.
  unfoldable pub match_count : Dict Value → Dict Value → ℤ
  match_count [] ps = pos 0
  match_count ((k, v) ∷ d) ps = elim (lookup k ps) [
    | none ↦ match_count d ps
    | some w ↦ if eq_value w v then match_count d ps +ℤ pos 1 else match_count d ps +ℤ negsuc 0
  ]

  -- The first of the groups that match best, but none that differs more than it matches.
  unfoldable pub choose_group : Dict Value → List Located → ℤ → Located → Located
  choose_group ps [] best parent = parent
  choose_group ps (l ∷ ls) best parent =
      let n = match_count (parameters_of (some "global") l.here l.parents) ps in
      if ltb_ℤ best n then choose_group ps ls n l else choose_group ps ls best parent

  unfoldable pub choose_parent : HostData → Located → Outcome HostError Located
  choose_parent h root =
      choose_subnet h.ip (get_blocks (some "subnet") true root) root then_do λ net. done (
        choose_group (read_parameters h.parameters) (get_blocks (some "group") false net) (negsuc 0)
          net)

  -- Parameters that a parent has with the same value are left out.
  unfoldable pub remove_inherited : Dict Value → Dict Value → Dict Value
  remove_inherited [] ps = ps
  remove_inherited ((k, v) ∷ d) ps = elim (lookup k ps) [
    | none ↦ remove_inherited d ps
    | some w ↦ elim (eq_value w v) [
      | true ↦ remove_inherited d (remove k ps)
      | false ↦ remove_inherited d ps
    ]
  ]

  -- `DHCPDConfParameter(...)` for each parameter.
  unfoldable pub parameter_components : Dict Value → Components
  parameter_components [] = nil
  parameter_components ((k, v) ∷ d) =
      cons (parameter k (parameter_value lower v)) (parameter_components d)

  unfoldable pub new_block : HostData → Located → Located
  new_block h parent =
      let ps = read_parameters h.parameters in
      record {
        here = record {
          block_type = "host";
          settings = "host" ∷ h.hostname ∷ [];
          components =
              cons (parameter "fixed-address" (parameter_value lower (text h.fixed_address))) (
                cons
                  (parameter "hardware" (parameter_value lower (text ("ethernet " +++ h.hardware))))
                  (parameter_components (
                    remove_inherited (parameters_of (some "global") parent.here parent.parents)
                      ps)));
        };
        parents = parent.here ∷ parent.parents;
      }

  -- The block that `add_host` adds to the file, with the parents that it gets. A host that has the name
  -- already is deleted before, which changes no parameters of a subnet or group.
  unfoldable pub new_host : HostData → Located → Outcome HostError Located
  new_host h root = check_data h then_do λ h'. find_existing h' (hosts root) false then_do λ _.
      choose_parent h' root then_do λ parent. done (new_block h' parent)

  -- `get_host`
  unfoldable pub find_host :
      String → Option String → List Located → Outcome HostError (Option (Dict Value))
  find_host name inherit [] = done none
  find_host name inherit (l ∷ ls) = name_of l then_do λ n. elim (n == name) [
    | true ↦ done (some (parameters_of inherit l.here l.parents))
    | false ↦ find_host name inherit ls
  ]

  unfoldable pub get_host :
      String → Option String → Located → Outcome HostError (Option (Dict Value))
  get_host hostname inherit root =
      or_raise invalid_argument (checks.host_name hostname) then_do λ name.
      find_host name inherit (hosts root)

-- `remove_components`: the list is iterated by a position while the item there is removed from it.
unfoldable pub remove_at : {A : Type 0} → ℕ → ℕ → List A → List A
remove_at zero i xs = xs
remove_at (suc n) i xs = elim (get_elem? xs i) [
  | none ↦ xs
  | some _ ↦ remove_at n (suc i) (erase_idx xs i)
]

unfoldable pub remove_components : {A : Type 0} → List A → List A
remove_components xs = remove_at (length xs) 0 xs
