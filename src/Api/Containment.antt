-- ===== src/Api/Containment.antt =====
-- What components contain, and the walk over it: `comp_get_next_contained`,
-- `comp_get_next_type_contained`, `comp_get_next_any`, `myrefl_comp_get_first_contained` and
-- `myrefl_comp_get_next_contained` of src/myrefl_obj.c. A component stands for its object too. A loop
-- without a bound of its own takes fuel, and none means that it goes on for longer.
pub mod Listed
pub mod Walk
use myreflection.Common.{ℕ, zero, suc, Bool, true, false, Option, none, some, ◌==◌, if◌then◌else◌}
use myreflection.Types.{ObjType, any, none, test, rule, action, comp}

-- The links of containment: the heads of the lists of a component, by type, and what stands in obj_t.
pub record Containment : Type 0 where
  pub kind : ℕ → ObjType
  pub head : (component : ℕ) → ObjType → Option ℕ
  pub next_in_comp : ℕ → Option ℕ
  pub parent_comp : ℕ → Option ℕ
  pub system_comp : ℕ

-- Where a step of the walk leads: to an object, to the end, or to a read through a NULL pointer.
pub data Place : Type 0 where
  at : ℕ → Place
  finished null_read : Place

-- A NULL component stands for the system.
unfoldable pub or_system : Containment → Option ℕ → ℕ
or_system t none = t.system_comp
or_system t (some c) = c

-- The peer of the parent, whose component is read without a test.
abbrev pub parent_peer : Option ℕ → Place
parent_peer none = null_read
parent_peer (some c) = at c

-- The loop to the parent's peer, which ends in its first round.
unfoldable pub climb_from : Containment → (top : ℕ) → (parent : Option ℕ) → Place
climb_from t top none = finished
climb_from t top (some p) = if p == top then finished else parent_peer (t.next_in_comp p)

-- The object of a pointer, or this place where it is NULL.
abbrev pub place_or : Place → Option ℕ → Place
place_or other none = other
place_or other (some o) = at o

-- `comp_get_next_contained`.
unfoldable pub comp_get_next_contained : Containment → (top last : ℕ) → Place
comp_get_next_contained t top last =
    place_or
      (if top == last
        then finished
        else place_or (climb_from t top (t.parent_comp last)) (t.next_in_comp last))
      (t.head last comp)

-- The first of the objects of a component, in the order of the tests for OBJ_TYPE_ANY.
abbrev pub first_found : Option ℕ → Option ℕ → Option ℕ
first_found (some o) other = some o
first_found none other = other

unfoldable pub first_any : Containment → ℕ → Option ℕ
first_any t c = first_found (t.head c none) (
    first_found (t.head c test)
      (first_found (t.head c rule) (first_found (t.head c action) (t.head c comp))))

-- The loop for OBJ_TYPE_ANY, with the rounds that are left.
abbrev pub any_round : (next : ℕ → Place) → (rest : Place → Place) → ℕ → Option ℕ → Place
any_round next rest c none = rest (next c)
any_round next rest c (some o) = at o

unfoldable pub next_any_contained : (rounds : ℕ) → Containment → (top : ℕ) → Place → Place
next_any_contained zero t top w = finished
next_any_contained (suc n) t top finished = finished
next_any_contained (suc n) t top null_read = null_read
next_any_contained (suc n) t top (at c) =
    any_round (comp_get_next_contained t top) (next_any_contained n t top) c (first_any t c)

-- The loop for one type.
abbrev pub type_round :
    (next : ℕ → Place) → (rest : Place → Option Place) → ℕ → Option ℕ → Option Place
type_round next rest c none = rest (next c)
type_round next rest c (some o) = some (at o)

unfoldable pub next_type_contained :
    (fuel : ℕ) → Containment → (top : ℕ) → ObjType → Place → Option Place
next_type_contained zero t top k w = none
next_type_contained (suc n) t top k finished = some finished
next_type_contained (suc n) t top k null_read = some null_read
next_type_contained (suc n) t top k (at c) =
    type_round (comp_get_next_contained t top) (next_type_contained n t top k) c (t.head c k)

-- MAX_NEXT_COMPS is 255, and one more round is made.
abbrev pub next_comp_rounds : ℕ
next_comp_rounds = 256

-- `comp_get_next_type_contained`.
unfoldable pub comp_get_next_type_contained :
    (fuel : ℕ) → Containment → (top last : ℕ) → ObjType → Option Place
comp_get_next_type_contained fuel t top last ObjType.any =
    some (next_any_contained next_comp_rounds t top (at last))
comp_get_next_type_contained fuel t top last k = next_type_contained fuel t top k (at last)

-- `myrefl_comp_get_first_contained`.
unfoldable pub comp_get_first_contained :
    (fuel : ℕ) → Containment → (top : Option ℕ) → ObjType → Option Place
comp_get_first_contained fuel t top k =
    comp_get_next_type_contained fuel t (or_system t top) (or_system t top) k

-- `comp_get_next_any`: the first object of the types that follow this one in a component.
unfoldable pub comp_get_next_any : Containment → ObjType → ℕ → Option ℕ
comp_get_next_any t ObjType.comp c =
    first_found (t.head c none)
      (first_found (t.head c test) (first_found (t.head c rule) (t.head c action)))
comp_get_next_any t ObjType.none c =
    first_found (t.head c test) (first_found (t.head c rule) (t.head c action))
comp_get_next_any t ObjType.test c = first_found (t.head c rule) (t.head c action)
comp_get_next_any t ObjType.rule c = t.head c action
comp_get_next_any t _ c = none

abbrev pub is_comp : ObjType → Bool
is_comp ObjType.comp = true
is_comp _ = false

-- The next object of any type: in the list of the last one, of a type that follows in the component,
-- or the next component.
unfoldable pub next_any_from : Containment → (top obj parent : ℕ) → Place
next_any_from t top o p =
    if is_comp (t.kind o)
    then place_or (comp_get_next_contained t top o) (comp_get_next_any t comp o)
    else place_or (place_or (comp_get_next_contained t top p) (comp_get_next_any t (t.kind o) p))
        (t.next_in_comp o)

-- The next object of one type that is not a component.
abbrev pub type_from : (fuel : ℕ) → Containment → (top : ℕ) → ObjType → Place → Option Place
type_from fuel t top k (at c) = comp_get_next_type_contained fuel t top c k
type_from fuel t top k w = some w

abbrev pub some_or : Option Place → Option ℕ → Option Place
some_or other none = other
some_or other (some o) = some (at o)

unfoldable pub next_type_from :
    (fuel : ℕ) → Containment → (top : ℕ) → ObjType → (obj parent : ℕ) → Option Place
next_type_from fuel t top k o p =
    if is_comp (t.kind o)
    then type_from fuel t top k (comp_get_next_contained t top p)
    else some_or (type_from fuel t top k (comp_get_next_contained t top p)) (t.next_in_comp o)

unfoldable pub next_from :
    (fuel : ℕ) → Containment → (top : ℕ) → ObjType → (obj : ℕ) → (parent : Option ℕ) → Option Place
next_from fuel t top k o none = some finished
next_from fuel t top ObjType.comp o (some p) = some (comp_get_next_contained t top o)
next_from fuel t top ObjType.any o (some p) = some (next_any_from t top o p)
next_from fuel t top k o (some p) = next_type_from fuel t top k o p

-- `myrefl_comp_get_next_contained`.
unfoldable pub get_next_contained :
    (fuel : ℕ) → Containment → (top obj : Option ℕ) → ObjType → Option Place
get_next_contained fuel t top none k = some finished
get_next_contained fuel t top (some o) k = next_from fuel t (or_system t top) k o (t.parent_comp o)
