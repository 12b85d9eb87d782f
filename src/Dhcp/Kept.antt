-- ===== src/Dhcp/Kept.antt =====
-- Each parameter given to `add_host` is one of the host that `get_parameters_hash` shows.
use opsiconfd.Prelude.{
  String, List, [], ◌∷◌, Option, none, some, false, ◌==◌, ◌≡◌, ◌≢◌, refl, sym, subst, ap, ◌∙◌,
  arith, eq_iff, Bool-cases, Option-cases, inl, inr,
}
use Prim.Native.String.{◌++◌ as ◌+++◌}
use opsiconfd.Prelude.Dict.{
  Dict, insert, lookup, remove, lookup-insert, lookup-remove, HasUniqueKeys,
}
use opsiconfd.Prelude.Effect.{
  Outcome, done, raised, ◌then_do◌, or_raise, then_do-done, done_injective,
}
use opsiconfd.Dhcp.Blocks.{
  Value, text, flag, eq_value, Components, Located, parameter_value, own_parameters, add_missing,
  parameters_of,
}
use opsiconfd.Dhcp.Hosts.{
  HostError, invalid_argument, Checks, HostData, read_parameters, remove_inherited,
  parameter_components, new_block, new_host, check_data, hosts, find_existing, choose_parent,
}
use opsiconfd.Dhcp.Inherited.{
  or_else, lookup-add_missing, HasUniqueKeys-parameters_of, remove_inherited-none,
  remove_inherited-same, remove_inherited-other, lookup-remove_inherited,
  HasUniqueKeys-remove_inherited, eq_value→≡,
}

abbrev pub map_value : (Value → Value) → Option Value → Option Value
map_value f none = none
map_value f (some v) = some (f v)

pub or_else-none : {V : Type 0} (o : Option V) → or_else o none ≡ o
or_else-none none = refl
or_else-none (some v) = refl

-- What is left out is found above with the same value.
left_out :
    (checks : Checks) (k : String) (w : Value) (e d : Dict Value)
    → HasUniqueKeys e
    → lookup k d ≡ some w
    → or_else (lookup k (remove_inherited checks e d)) (lookup k e) ≡ some w
unfolding remove_inherited lookup
left_out checks k w [] d u h = ground arith
left_out checks k w ((j, v) ∷ e) d u h = elim (Option-cases (lookup j d)) [
  | inl new ↦
      rw (remove_inherited-none checks j v e d new)
        (ground (arith, left_out checks k w e d u.1 h, eq_iff j k))
  | inr (x, old) ↦ elim (Bool-cases (eq_value x v)) [
    | inl same ↦ elim (Bool-cases (j == k)) [
      | inl e' ↦
          rw
            (
              remove_inherited-same checks j v x e d old same,
              e',
              lookup-remove_inherited checks k e (remove j d)
                  (ground (arith, lookup-remove j k d, e')),
            )
            (ground (arith, eq_value→≡ x v same, (eq_iff j k).0 e', old, h))
      | inr e' ↦
          rw (remove_inherited-same checks j v x e d old same, e')
            (left_out checks k w e (remove j d) u.1 (ground (arith, lookup-remove j k d)))
    ]
    | inr other ↦
        rw (remove_inherited-other checks j v x e d old other)
          (ground (arith, left_out checks k w e d u.1 h, eq_iff j k, u.0))
  ]
]

parameter_value_twice :
    (lower : String → String) (v : Value)
    → parameter_value lower (parameter_value lower v) ≡ parameter_value lower v
unfolding parameter_value
parameter_value_twice lower (flag b) = refl
parameter_value_twice lower (text s) = ground arith

pub lookup-read_parameters :
    (checks : Checks) (k : String) (d : Dict Value)
    → lookup k (read_parameters checks d) ≡ map_value (parameter_value checks.lower) (lookup k d)
unfolding read_parameters lookup
lookup-read_parameters checks k [] = refl
lookup-read_parameters checks k ((j, v) ∷ d) = ground (arith, lookup-read_parameters checks k d)

pub lookup-own_parameters :
    (checks : Checks) (k : String) (d c : Dict Value)
    → HasUniqueKeys d
    → lookup k (own_parameters (parameter_components checks d) c)
      ≡ or_else (map_value (parameter_value checks.lower) (lookup k d)) (lookup k c)
unfolding own_parameters parameter_components lookup
lookup-own_parameters checks k [] c u = refl
lookup-own_parameters checks k ((j, v) ∷ d) c u =
    lookup-own_parameters checks k d (insert j (parameter_value checks.lower v) c) u.1
    ∙ ground (arith, lookup-insert j k (parameter_value checks.lower v) c, eq_iff j k, u.0)

-- The values that are left are those that the host was given.
pub kept :
    (checks : Checks) (k : String) (v : Value) (e d : Dict Value)
    → HasUniqueKeys e
    → lookup k d ≡ some (parameter_value checks.lower v)
    → or_else
        (map_value (parameter_value checks.lower) (lookup k (remove_inherited checks e d)))
        (lookup k e)
      ≡ some (parameter_value checks.lower v)
kept checks k v e d u h = ground (
  arith,
  left_out checks k (parameter_value checks.lower v) e d u h,
  parameter_value_twice checks.lower v,
)

pub HasUniqueKeys-read_parameters :
    (checks : Checks) (d : Dict Value) → HasUniqueKeys d → HasUniqueKeys (read_parameters checks d)
unfolding read_parameters
HasUniqueKeys-read_parameters checks [] u = tt
HasUniqueKeys-read_parameters checks ((k, v) ∷ d) u = (
  ground (arith, lookup-read_parameters checks k d, u.0),
  HasUniqueKeys-read_parameters checks d u.1,
)

-- The address parameters that `add_host` writes itself.
abbrev addresses : Checks → HostData → Dict Value
addresses checks h =
    insert "hardware" (parameter_value checks.lower (text ("ethernet " +++ h.hardware)))
      (insert "fixed-address" (parameter_value checks.lower (text h.fixed_address)) [])

lookup-addresses :
    (checks : Checks) (h : HostData) (k : String)
    → k ≢ "fixed-address"
    → k ≢ "hardware"
    → lookup k (addresses checks h) ≡ none
unfolding lookup insert
lookup-addresses checks h k other other' =
    ground (arith, eq_iff "fixed-address" k, eq_iff "hardware" k)

-- A block below others, as `get_parameters_hash("global")` sees it.
parameters_of-inherit :
    (settings : List String) (cs : Components) (l : Located)
    → parameters_of
        (some "global")
        record { block_type = "host"; settings = settings; components = cs }
        (l.here ∷ l.parents)
      ≡ add_missing (parameters_of (some "global") l.here l.parents) (own_parameters cs [])
unfolding parameters_of
parameters_of-inherit settings cs l = refl

lookup-new_block :
    (checks : Checks) (h : HostData) (parent : Located) (k : String) (v : Value)
    → HasUniqueKeys h.parameters
    → k ≢ "fixed-address"
    → k ≢ "hardware"
    → lookup k h.parameters ≡ some v
    → lookup k (
        parameters_of
          (some "global")
          (new_block checks h parent).here
          (new_block checks h parent).parents)
      ≡ some (parameter_value checks.lower v)
unfolding new_block own_parameters
lookup-new_block checks h parent k v u other other' given =
    let above = parameters_of (some "global") parent.here parent.parents in
    let left = remove_inherited checks above (read_parameters checks h.parameters) in
    ap (lookup k) (parameters_of-inherit _ _ parent)
    ∙ lookup-add_missing k above
        (own_parameters (parameter_components checks left) (addresses checks h))
    ∙ ap (λ o. or_else o (lookup k above))
        (lookup-own_parameters checks k left (addresses checks h) (
            HasUniqueKeys-remove_inherited checks above (read_parameters checks h.parameters)
              (HasUniqueKeys-read_parameters checks h.parameters u))
          ∙ ap (or_else _) (lookup-addresses checks h k other other')
          ∙ or_else-none _)
    ∙ kept checks k v above (read_parameters checks h.parameters)
        (HasUniqueKeys-parameters_of (some "global") parent.here parent.parents)
        (lookup-read_parameters checks k h.parameters
          ∙ ap (map_value (parameter_value checks.lower)) given)

check_data-parameters :
    (checks : Checks) (h h' : HostData)
    → check_data checks h ≡ done h'
    → h'.parameters ≡ h.parameters
unfolding check_data
check_data-parameters checks h h' e =
    go (or_raise invalid_argument (checks.host_name h.hostname))
      (or_raise invalid_argument (checks.hardware_address h.hardware))
      (or_raise invalid_argument (checks.ip_address h.ip)) e
  where
    go :
        (m n o : Outcome HostError String)
        → (m then_do λ name. n then_do λ address. o then_do λ ip. done (record {
          hostname = name;
          hardware = address;
          ip = ip;
          fixed_address = checks.lower h.fixed_address;
          parameters = h.parameters;
        }))
          ≡ done h'
        → h'.parameters ≡ h.parameters
    go (done a) (done b) (done c) f = ap (λ (x : HostData). x.parameters) (done_injective (sym f))
    go (raised a) n o f = absurd (cc f)
    go (done a) (raised b) o f = absurd (cc f)
    go (done a) (done b) (raised c) f = absurd (cc f)

-- Where `add_host` comes to the end, the block that it adds has, under "global", every parameter that
-- it was given, its value read as that of a component, but for the parameters "fixed-address" and "hardware":
-- it is in the block itself, or in one above it, whichever subnet or group was chosen as the parent.
pub new_host-parameters_of :
    (checks : Checks) (h : HostData) (root b : Located) (k : String) (v : Value)
    → HasUniqueKeys h.parameters
    → new_host checks h root ≡ done b
    → k ≢ "fixed-address"
    → k ≢ "hardware"
    → lookup k h.parameters ≡ some v
    → lookup k (parameters_of (some "global") b.here b.parents)
      ≡ some (parameter_value checks.lower v)
unfolding new_host
new_host-parameters_of checks h root b k v u ends other other' given =
    let (h', checked, e1) = then_do-done (check_data checks h) _ b ends in
    let (_, _, e2) =
      then_do-done (find_existing checks h' (hosts root) false)
        (λ _. choose_parent checks h' root then_do λ parent. done (new_block checks h' parent)) b
        e1 in
    let (parent, _, e3) =
      then_do-done (choose_parent checks h' root) (λ x. done (new_block checks h' x)) b e2 in
    let same = check_data-parameters checks h h' checked in
    subst
      (λ (x : Located).
        lookup k (parameters_of (some "global") x.here x.parents)
        ≡ some (parameter_value checks.lower v))
      (done_injective e3)
      (lookup-new_block checks h' parent k v (subst HasUniqueKeys (sym same) u) other other'
        (ap (lookup k) same ∙ given))
