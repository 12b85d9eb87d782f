-- ===== src/Dhcp/Modify.antt =====
-- `modify_host` of opsiconfd/dhcpd.py.
use opsiconfd.Prelude.{
  String, List, [], ◌∷◌, ◌++◌, Option, none, some, Bool, true, false, ◌&&◌, if◌then◌else◌, ◌==◌,
  length,
}
use opsiconfd.Prelude.Dict.{Dict, lookup}
use opsiconfd.Prelude.Effect.{Outcome, done, raised, ◌then_do◌, or_raise}
use opsiconfd.Dhcp.Blocks.{
  Value, text, eq_value, Component, Components, nil, cons, Located, parameters_of,
}
use opsiconfd.Dhcp.Hosts.{
  HostError, assertion_error, invalid_argument, same_hardware_address, found_times, Checks,
  value_text, name_of, hosts, read_parameters, remove_inherited, parameter_components,
  remove_components,
}

abbrev pub to_list : Components → List Component
to_list nil = []
to_list (cons c cs) = c ∷ to_list cs

-- These components, and those behind them.
abbrev pub followed_by : List Component → Components → Components
followed_by [] cs = cs
followed_by (c ∷ l) cs = cons c (followed_by l cs)

-- Whether the address is the one of the parameters that are given.
abbrev is_given : String → Option Value → Bool
is_given s (some (text t)) = s == t
is_given s _ = false

abbrev pub the_only : List Located → Outcome HostError Located
the_only (l ∷ []) = done l
the_only ls = raised (found_times (length ls))

module _ (checks : Checks) where
  open checks use {lower}

  -- A host with another name counts if its address is the name; its hardware address must differ.
  unfoldable pub match_other :
      String → Dict Value → Located → String → Dict Value → Outcome HostError (List Located)
  match_other hostname ps l name [] = done []
  match_other hostname ps l name ((k, v) ∷ d) =
      let rest = match_other hostname ps l name d in
      if (k == "fixed-address") && eq_value v (text hostname)
      then (rest then_do λ r. done (l ∷ r))
      else if (k == "hardware") && is_given (lower (value_text v)) (lookup "hardware" ps)
      then raised (same_hardware_address name)
      else rest

  unfoldable pub find_modified :
      String → Dict Value → List Located → Outcome HostError (List Located)
  find_modified hostname ps [] = done []
  find_modified hostname ps (l ∷ ls) =
      let rest = find_modified hostname ps ls in
      name_of l then_do λ name. elim (name == hostname) [
        | true ↦ rest then_do λ r. done (l ∷ r)
        | false ↦ match_other hostname ps l name (parameters_of none l.here l.parents) then_do λ m.
            rest then_do λ r. done (m ++ r)
      ]

  -- The block of the host with the given parameters but for those that its parent has.
  unfoldable pub change_block : Dict Value → Located → Outcome HostError Located
  change_block ps l = elim l.parents [
    | [] ↦ raised assertion_error
    | p ∷ above ↦ done (record l {
      here = record l.here {
        components = followed_by (remove_components (to_list l.here.components)) (
            parameter_components checks (
              remove_inherited checks (parameters_of (some "global") p above)
                (read_parameters checks ps)));
      };
    })
  ]

  -- The changed block of the host.
  unfoldable pub modify_host : String → Dict Value → Located → Outcome HostError Located
  modify_host hostname ps root =
      or_raise invalid_argument (checks.host_name hostname) then_do λ name.
      find_modified name ps (hosts root) then_do λ found.
      the_only found then_do λ l. change_block ps l
