-- ===== src/Actions/Samples/Orders.antt =====
-- Tests of the order within a group and of the groups of products.
use opsiconfd.Prelude.{
  some, ℕ, get_elem?, ◌≤◌, String, ◌≡◌, ◌↔◌, refl, List, [], ◌∷◌, true, false, arith, ◌==◌, ◌||◌,
  ◌&&◌, eq_iff, length, count,
}
use opsiconfd.Prelude.Text.{contains}
use opsiconfd.Prelude.Dict.{lookup}
use opsiconfd.Actions.Data.{Action}
use opsiconfd.Actions.Group.{sort, sort_run, order_dependency}
use opsiconfd.Actions.Group.Positions.{index_of}
use opsiconfd.Actions.Group.Absent.{order_dependency-last}
use opsiconfd.Actions.Group.Moves.{meets, order_dependency-meets}
use opsiconfd.Actions.Group.Runs.{Rearranges, Rearranges-sort}
use opsiconfd.Actions.Group.Settled.{AllSettled}
use opsiconfd.Actions.Group.Quiet.{sort_run_quiet}
use opsiconfd.Actions.Partition.{join}
use opsiconfd.Actions.Partition.Join.{IsDisjoint, together}
use opsiconfd.Actions.Partition.Classes.{touches, together-join, join-IsDisjoint}
use opsiconfd.Actions.Samples.{needs, needs_java, setup, two, in_order, same_on_client}

at_most_one :
    (a b : Action) (k : String)
    → (a.product_id == b.product_id) ≡ false
    → count (λ a. a.product_id == k) (a ∷ b ∷ []) ≤ 1
at_most_one a b k h =
    ground (arith, eq_iff a.product_id k, eq_iff b.product_id k, eq_iff a.product_id b.product_id)

two-IsUnique : (k : String) → count (λ a. a.product_id == k) two.actions ≤ 1
two-IsUnique k = at_most_one (setup "firefox") (setup "java") k refl

order_dependency-meets_example :
    meets "firefox" needs_java (order_dependency 1 "firefox" needs_java two).actions ≡ true
order_dependency-meets_example =
    order_dependency-meets 1 "firefox" needs_java two two-IsUnique refl refl refl

Rearranges-sort_example : Rearranges two (sort same_on_client two)
Rearranges-sort_example = Rearranges-sort same_on_client two

in_order-IsUnique : (k : String) → count (λ a. a.product_id == k) in_order.actions ≤ 1
in_order-IsUnique k = at_most_one (setup "wine") (setup "java") k refl

sort_run_quiet_example :
    (length (sort_run 1 two.actions two).sort_log ≤ 0) ↔ AllSettled two.actions two
unfolding lookup
sort_run_quiet_example = sort_run_quiet 1 two two-IsUnique ((refl, (refl, tt)), ((refl, tt), tt))

abbrev classes : List (List String)
classes = ("firefox" ∷ "java" ∷ []) ∷ ("wine" ∷ []) ∷ []

IsDisjoint-classes :
    (a b c : String)
    → (a == c) ≡ false
    → (b == c) ≡ false
    → IsDisjoint ((a ∷ b ∷ []) ∷ (c ∷ []) ∷ [])
unfolding contains
IsDisjoint-classes a b c h h' k =
    ground (arith, eq_iff k a, eq_iff k b, eq_iff k c, eq_iff a c, eq_iff b c)

classes-IsDisjoint : IsDisjoint classes
classes-IsDisjoint = IsDisjoint-classes "firefox" "java" "wine" refl refl

joined_together : together "firefox" "wine" (join "java" "wine" classes) ≡ (
    together "firefox" "wine" classes
    || (touches "java" "wine" classes "firefox" && touches "java" "wine" classes "wine"))
joined_together = together-join "java" "wine" classes "firefox" "wine" classes-IsDisjoint

joined_classes : IsDisjoint (join "java" "wine" classes)
joined_classes = join-IsDisjoint "java" "wine" classes classes-IsDisjoint

order_dependency-last_example :
    (i : ℕ) × (index_of "firefox" two.actions ≡ some i)
    × (get_elem? (order_dependency 1 "firefox" (needs "flash" (some "after")) two).actions i
        ≡ some (setup "java"))
order_dependency-last_example =
    order_dependency-last 1 "firefox" (needs "flash" (some "after")) two two-IsUnique refl refl refl
      refl
