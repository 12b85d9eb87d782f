-- ===== src/Dhcp/Replaced.antt =====
-- What `modify_host` leaves of the components of a host.
use opsiconfd.Prelude.{◌≡◌, refl, String, List, [], ◌∷◌, ◌++◌, Option, none, some, ap, ◌∙◌, sym}
use opsiconfd.Prelude.Dict.{Dict, lookup, HasUniqueKeys}
use opsiconfd.Prelude.Effect.{
  done, raised, ◌then_do◌, or_raise, then_do-done, or_raise-done, done_injective,
}
use opsiconfd.Dhcp.Blocks.{
  Value, Component, Components, Block, Located, parameters_of, own_parameters, parameter_value,
}
use opsiconfd.Dhcp.Hosts.{
  assertion_error, invalid_argument, Checks, hosts, read_parameters, remove_inherited,
  parameter_components, remove_components,
}
use opsiconfd.Dhcp.Inherited.{or_else, HasUniqueKeys-parameters_of, HasUniqueKeys-remove_inherited}
use opsiconfd.Dhcp.Kept.{
  or_else-none, map_value, kept, lookup-own_parameters, lookup-read_parameters,
  HasUniqueKeys-read_parameters,
}
use opsiconfd.Dhcp.Removed.{every_second, remove_components-every_second}
use opsiconfd.Dhcp.Modify.{to_list, followed_by, find_modified, change_block, the_only, modify_host}

to_list-followed_by :
    (l : List Component) (cs : Components) → to_list (followed_by l cs) ≡ l ++ to_list cs
to_list-followed_by [] cs = refl
to_list-followed_by (c ∷ l) cs = ap (◌∷◌ c) (to_list-followed_by l cs)

-- The value of a parameter in the blocks above.
abbrev pub above_of : List Block → String → Option Value
above_of [] k = none
above_of (p ∷ above) k = lookup k (parameters_of (some "global") p above)

-- The components of a block after the change: every second old one, and behind them new ones that, with
-- the parameters of the blocks above, have each parameter that was given.
abbrev pub IsReplaced : Checks → Dict Value → Located → Located → Type 0
IsReplaced checks ps l b =
    (new : Components) × (to_list b.here.components
      ≡ every_second (to_list l.here.components) ++ to_list new)
    × ((k : String) (v : Value)
        → lookup k ps ≡ some v
        → or_else (lookup k (own_parameters new [])) (above_of l.parents k)
          ≡ some (parameter_value checks.lower v))

has_given :
    (checks : Checks) (ps : Dict Value) (p : Block) (above : List Block)
    → HasUniqueKeys ps
    → (k : String) (v : Value) → lookup k ps ≡ some v
    → or_else
        (lookup k (
          own_parameters
            (parameter_components checks (
              remove_inherited checks
                (parameters_of (some "global") p above)
                (read_parameters checks ps)))
            []))
        (lookup k (parameters_of (some "global") p above))
      ≡ some (parameter_value checks.lower v)
unfolding lookup
has_given checks ps p above u k v given =
    let up = parameters_of (some "global") p above in
    let left = remove_inherited checks up (read_parameters checks ps) in
    ap (λ o. or_else o (lookup k up))
      (lookup-own_parameters checks k left [] (
          HasUniqueKeys-remove_inherited checks up (read_parameters checks ps)
            (HasUniqueKeys-read_parameters checks ps u))
        ∙ or_else-none _)
    ∙ kept checks k v up (read_parameters checks ps)
        (HasUniqueKeys-parameters_of (some "global") p above)
        (lookup-read_parameters checks k ps ∙ ap (map_value (parameter_value checks.lower)) given)

change_block-every_second :
    (checks : Checks) (ps : Dict Value) (l b : Located)
    → HasUniqueKeys ps
    → change_block checks ps l ≡ done b
    → IsReplaced checks ps l b
unfolding change_block
change_block-every_second checks ps l b u e = go l.parents e
  where
    go :
        (above : List Block)
        → (elim above [
          | [] ↦ raised assertion_error
          | p ∷ above ↦ done (record l {
            here = record l.here {
              components = followed_by (remove_components (to_list l.here.components)) (
                  parameter_components checks (
                    remove_inherited checks
                      (parameters_of (some "global") p above)
                      (read_parameters checks ps)));
            };
          })
        ])
          ≡ done b
        → (new : Components) × (to_list b.here.components
            ≡ every_second (to_list l.here.components) ++ to_list new)
          × ((k : String) (v : Value)
              → lookup k ps ≡ some v
              → or_else (lookup k (own_parameters new [])) (above_of above k)
                ≡ some (parameter_value checks.lower v))
    go [] e = absurd (cc e)
    go (p ∷ above) e =
        let new = parameter_components checks (
          remove_inherited checks (parameters_of (some "global") p above)
            (read_parameters checks ps)) in
        (
          new,
          ap (λ (x : Located). to_list x.here.components) (sym (done_injective e))
              ∙ to_list-followed_by (remove_components (to_list l.here.components)) new
              ∙ ap (λ cs. cs ++ to_list new)
                  (remove_components-every_second (to_list l.here.components)),
          has_given checks ps p above u,
        )

the_only-done : (ls : List Located) (l : Located) → the_only ls ≡ done l → ls ≡ l ∷ []
the_only-done [] l e = absurd (cc e)
the_only-done (x ∷ []) l e = ap (λ y. y ∷ []) (done_injective e)
the_only-done (x ∷ y ∷ ls) l e = absurd (cc e)

-- Where `modify_host` comes to the end, there is one block that it found for the name, and of the
-- components of this it has kept the second, the fourth, and so on. Behind them it has new parameters,
-- so that each parameter given is there, or in the blocks above.
pub modify_host-every_second :
    (checks : Checks) (hostname : String) (ps : Dict Value) (root b : Located)
    → HasUniqueKeys ps
    → modify_host checks hostname ps root ≡ done b
    → (name : String) × (l : Located) × (checks.host_name hostname ≡ some name)
      × (find_modified checks name ps (hosts root) ≡ done (l ∷ []))
      × IsReplaced checks ps l b
unfolding modify_host
modify_host-every_second checks hostname ps root b u e =
    let (name, named, e1) =
      then_do-done (or_raise invalid_argument (checks.host_name hostname)) _ b e in
    let (found, is_found, e2) =
      then_do-done (find_modified checks name ps (hosts root))
        (λ found. the_only found then_do λ l. change_block checks ps l) b e1 in
    let (l, only, e3) = then_do-done (the_only found) (change_block checks ps) b e2 in
    (
      name,
      l,
      or_raise-done invalid_argument (checks.host_name hostname) name named,
      is_found ∙ ap done (the_only-done found l only),
      change_block-every_second checks ps l b u e3,
    )
