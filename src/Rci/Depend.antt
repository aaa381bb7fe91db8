-- ===== src/Rci/Depend.antt =====
-- The dependency graph and its loop detection: `is_obj_in_tree` and `myrefl_depend_create` in
-- src/myrefl_rci.c. Objects and components are numbers, an object's lists are functions of it, and
-- `myrefl_list_add` finds the memory for its elements.
pub mod Search
pub mod Acyclic
pub mod Create
pub mod Mirror
pub mod Loop
pub mod Attached
use myreflection.Common.{
  ℕ, zero, suc, ◌+◌, Bool, true, false, ◌&&◌, ◌||◌, Option, none, some, List, [], ◌∷◌, ◌==◌,
  if◌then◌else◌, has, remove, update,
}
use myreflection.Types.{ObjType, rule, comp, u32}

-- loop_domain_t.
pub record Domain : Type 0 where
  pub number : ℕ
  pub reachable : List ℕ

pub record Graph : Type 0 where
  pub kind : ℕ → ObjType
  pub child_depend : ℕ → List ℕ
  pub parent_depend : ℕ → List ℕ
  pub domain : ℕ → ℕ
  pub parent_comp : ℕ → Option ℕ
  pub comp_valid : ℕ → Bool
  pub top_depend : ℕ → List ℕ
  pub bottom_depend : ℕ → List ℕ
  pub domains : List Domain
  pub next_domain : ℕ

-- `myrefl_list_add`, which refuses duplicates.
abbrev pub list_add : ℕ → List ℕ → List ℕ
list_add x xs = if has x xs then xs else x ∷ xs

-- The walk over the children, up to the first that finds the target or does not return.
unfoldable pub any_child : (ℕ → Option Bool) → List ℕ → Option Bool
any_child search [] = some false
any_child search (c ∷ cs) = elim (search c) [
  | none ↦ none
  | some true ↦ some true
  | some false ↦ any_child search cs
]

-- `is_obj_in_tree`, to a depth of `fuel` calls; none means that it goes deeper.
unfoldable pub is_obj_in_tree : ℕ → (ℕ → List ℕ) → (target tree : ℕ) → Option Bool
unfolding any_child
is_obj_in_tree zero children target tree = none
is_obj_in_tree (suc fuel) children target tree =
    if tree == target
    then some true
    else any_child (is_obj_in_tree fuel children target) (children tree)

-- How the walk over the domains ends: at its end, at a loop, or in a search that did not return.
pub data WalkEnd : Type 0 where
  passed looped stuck : WalkEnd

abbrev is_looped : WalkEnd → Bool
is_looped looped = true
is_looped _ = false

-- The walk over the domains for a parent and a child in different ones, given what the search for
-- the parent below the child returns. A loop takes the child back out of the parent's domain if the
-- walk had passed it.
unfoldable pub walk_domains : Option Bool → (dp dc : ℕ) → List Domain → List Domain × WalkEnd
walk_domains search dp dc [] = ([], passed)
walk_domains search dp dc (d ∷ ds) =
    let added = record d { reachable = list_add dc d.reachable } in
    let (rest, end) = walk_domains search dp dc ds in
    if d.number == dp
    then (
      (if is_looped end
            then record d { reachable = remove dc (list_add dc d.reachable) }
            else added)
          ∷ rest,
      end,
    )
    else if d.number == dc
    then (if has dp d.reachable
        then elim search [
          | none ↦ (d ∷ ds, stuck)
          | some true ↦ (d ∷ ds, looped)
          | some false ↦ (d ∷ rest, end)
        ]
        else (d ∷ rest, end))
    else if has dp d.reachable
    then (added ∷ rest, end)
    else (d ∷ rest, end)

-- What a call does: it returns with this graph, its search never returns (or not within the fuel),
-- or it reads through a NULL pointer.
pub data Outcome : Type 0 where
  done : Graph → Outcome
  out_of_fuel : Outcome
  fault : Outcome

abbrev same_comp : Option ℕ → Option ℕ → Option ℕ
same_comp none _ = none
same_comp (some j) none = none
same_comp (some j) (some k) = if j == k then some j else none

-- The component's boundary lists, after its member `p` came to depend on its member `c`.
unfoldable pub leave_boundary : ℕ → ℕ → Graph → Option ℕ → Graph
leave_boundary p c g none = g
leave_boundary p c g (some k) =
    if g.comp_valid k
    then record g {
      top_depend = update g.top_depend k (remove c (g.top_depend k));
      bottom_depend = update g.bottom_depend k (remove p (g.bottom_depend k));
    }
    else g

-- The connection of parent and child.
unfoldable pub connect : ℕ → ℕ → Graph → Graph
unfolding leave_boundary
connect p c g =
    leave_boundary p c
      (record g {
        child_depend = update g.child_depend p (list_add c (g.child_depend p));
        parent_depend = update g.parent_depend c (list_add p (g.parent_depend c));
      })
      (same_comp (g.parent_comp p) (g.parent_comp c))

-- Which of the allocations for a new domain succeed.
pub record Memory : Type 0 where
  pub domain_block : Bool
  pub reachable_list : Bool

abbrev pub new_domain : ℕ → ℕ → Graph → Graph
new_domain p c g = record g {
  domains = record { number = g.next_domain; reachable = [] } ∷ g.domains;
  next_domain = u32 (g.next_domain + 1);
  domain = update (update g.domain c g.next_domain) p g.next_domain;
}

-- Both are in the same domain: connect them unless the parent stands below the child.
unfoldable pub connect_checked : Option Bool → ℕ → ℕ → Graph → Outcome
unfolding connect
connect_checked none p c g = out_of_fuel
connect_checked (some true) p c g = done g
connect_checked (some false) p c g = done (connect p c g)

unfoldable pub connect_walked : WalkEnd → ℕ → ℕ → Graph → Outcome
unfolding connect
connect_walked passed p c g = done (connect p c g)
connect_walked looped p c g = done g
connect_walked stuck p c g = out_of_fuel

-- `myrefl_depend_create` from its check of the domains on.
unfoldable pub join_domains : ℕ → Memory → ℕ → ℕ → Graph → Outcome
unfolding connect connect_checked connect_walked is_obj_in_tree walk_domains
join_domains fuel mem p c g =
    let dp = g.domain p in
    let dc = g.domain c in
    let search = is_obj_in_tree fuel g.child_depend p c in
    let walked = walk_domains search dp dc g.domains in
    if dp == 0
    then (if dc == 0
        then (if mem.domain_block
            then (if mem.reachable_list
                then done (connect p c (new_domain p c g))
                else done (record g { next_domain = u32 (g.next_domain + 1) }))
            else done g)
        else done (connect p c (record g { domain = update g.domain p dc })))
    else if dc == 0
    then done (connect p c (record g { domain = update g.domain c dp }))
    else if dc == dp
    then connect_checked search p c g
    else connect_walked walked.1 p c (record g { domains = walked.0 })

-- May objects of this type depend on one another?
abbrev pub depends : ObjType → Bool
depends comp = true
depends rule = true
depends ObjType.none = true
depends _ = false

-- `myrefl_depend_create` on the objects that the names stand for. Its error messages read the type
-- of an object that it could not get.
unfoldable pub depend_create : ℕ → Memory → Option ℕ → Option ℕ → Graph → Outcome
unfolding join_domains
depend_create fuel mem none c g = fault
depend_create fuel mem (some p) none g = if depends (g.kind p) then fault else done g
depend_create fuel mem (some p) (some c) g =
    if depends (g.kind p) && depends (g.kind c)
    then (if (p == c) || (has c (g.child_depend p) || has p (g.parent_depend c))
        then done g
        else join_domains fuel mem p c g)
    else done g
