-- ===== src/Util.antt =====
-- The linked lists of src/myrefl_util.c, on their heap: elements with a data and a next pointer, the
-- pool of free elements, and the critical section of a list. A pointer is a number, and NULL is 0.
-- What calloc returns is an argument, in units of elements; the loops over a list take fuel.
pub mod Chain
pub mod Pooling
pub mod Stores
pub mod Push
pub mod Pop
pub mod Unlink
pub mod Remove
pub mod Insert
pub mod Free
use myreflection.Common.{
  ℕ, zero, suc, ◌+◌, ◌-◌, Bool, true, false, not, ◌&&◌, Option, none, some, List, [], ◌∷◌, ◌==◌,
  if◌then◌else◌, update,
}

-- The elements' fields, and free_elements.
pub record Heap : Type 0 where
  pub next : ℕ → ℕ
  pub item : ℕ → ℕ
  pub free : ℕ

-- myrefl_list_t. `locks` is how often its critical section is entered and not left.
pub record Handle : Type 0 where
  pub head : ℕ
  pub tail : ℕ
  pub num_elements : ℕ
  pub locks : ℕ

abbrev pub enter : Handle → Handle
enter l = record l { locks = l.locks + 1 }

abbrev pub leave : Handle → Handle
leave l = record l { locks = l.locks - 1 }

-- `free_list_element` of an element that is not NULL.
abbrev pub free_list_element : ℕ → Heap → Heap
free_list_element e h = record h { next = update h.next e h.free; free = e }

-- The loop that threads a new block's elements on the free list, from its i-th element on.
pub thread_block : (rounds block i : ℕ) → Heap → Heap
thread_block zero block i h = h
thread_block (suc k) block i h =
    thread_block k block (i + 1)
      (record h { next = update h.next (block + i) h.free; free = block + i })

-- `calloc(50, …)`, where it succeeds: a block of zeros.
pub cleared : (rounds block : ℕ) → (ℕ → ℕ) → ℕ → ℕ
cleared zero block f = f
cleared (suc k) block f = cleared k (block + 1) (update f block 0)

pub refill : Option ℕ → Heap → Heap
refill none h = h
refill (some block) h =
    thread_block 50 block 0
      (record h { next = cleared 50 block h.next; item = cleared 50 block h.item })

-- The first of the free list, if there is one, or NULL.
pub take_free : Heap → ℕ × Heap
take_free h = if h.free == 0 then (0, h) else (
  h.free,
  record h { next = update h.next h.free 0; item = update h.item h.free 0; free = h.next h.free },
)

-- `new_list_element`.
pub new_list_element : Option ℕ → Heap → ℕ × Heap
new_list_element block h = take_free (if h.free == 0 then refill block h else h)

-- `validate_list`.
abbrev pub validate_list : (ℕ → ℕ) → Handle → Bool
validate_list next l =
    if l.num_elements == 0
    then (l.head == 0) && (l.tail == 0)
    else if l.num_elements == 1
    then not (l.head == 0) && (not (l.tail == 0) && ((l.head == l.tail) && (next l.head == 0)))
    else not (l.head == 0) && (not (l.tail == 0) && (not (next l.head == 0) && (next l.tail == 0)))

-- `myrefl_list_create`, where its memory and its lock are found.
pub list_create : Handle
list_create = record { head = 0; tail = 0; num_elements = 0; locks = 0 }

-- The last step of most functions: the critical section is left if the list is still valid.
abbrev pub leave_valid : Heap → Handle → Handle
leave_valid h l = if validate_list h.next l then leave l else l

-- `myrefl_list_push` once it has its element: the new last one.
pub push_element : ℕ → ℕ → Heap → Handle → Heap × Handle
push_element e v h0 l =
    let h1 = record h0 { item = update h0.item e v; next = update h0.next e 0 } in
    let h2 = record h1 { next = if l.tail == 0 then h1.next else update h1.next l.tail e } in
    let l2 = record l {
      head = if l.head == 0 then e else l.head;
      tail = e;
      num_elements = l.num_elements + 1;
      locks = l.locks + 1;
    } in
    if validate_list h1.next l then (h2, leave_valid h2 l2) else (h1, enter l)

-- `myrefl_list_push`.
pub list_push : Option ℕ → ℕ → Heap → Handle → Heap × Handle
list_push block v h l =
    let (e, h') = new_list_element block h in if e == 0 then (h', l) else push_element e v h' l

-- `myrefl_list_pop`; NULL is 0.
pub list_pop : Heap → Handle → ℕ × Heap × Handle
list_pop h l =
    let rest = record l {
      head = h.next l.head;
      tail = if l.tail == l.head then 0 else l.tail;
      num_elements = l.num_elements - 1;
      locks = l.locks + 1;
    } in
    if validate_list h.next l
    then (if l.head == 0
        then (0, h, l)
        else let freed = free_list_element l.head h in
          (
            if validate_list freed.next rest then h.item l.head else 0,
            freed,
            leave_valid freed rest,
          ))
    else (0, h, enter l)

-- `myrefl_list_peek`.
pub list_peek : Heap → Handle → ℕ
list_peek h l = if l.head == 0 then 0 else h.item l.head

-- The loop of `myrefl_list_find`; none where it takes more than `fuel` rounds.
pub find_from : (fuel : ℕ) → Heap → (current : ℕ) → ℕ → Option Bool
find_from zero h current v = none
find_from (suc fuel) h current v =
    let rest = find_from fuel h (h.next current) v in
    if current == 0 then some false else if h.item current == v then some true else rest

-- `myrefl_list_find`, which enters and leaves the critical section.
abbrev pub list_find : ℕ → Heap → Handle → ℕ → Option Bool
list_find fuel h l v = find_from fuel h l.head v

-- The element that `myrefl_list_insert` puts behind `prev`, or in front where that is NULL.
pub insert_element : ℕ → (prev : ℕ) → ℕ → Heap → Handle → Heap × Handle
insert_element e prev v h0 l =
    let h1 = record h0 { item = update h0.item e v } in
    let h2 = record h1 {
      next =
          if prev == 0
          then update h1.next e l.head
          else update (update h1.next prev e) e (h1.next prev);
    } in
    let head' = if prev == 0 then e else l.head in
    let l2 = record l {
      head = head';
      tail = if l.tail == 0 then head' else if l.tail == prev then e else l.tail;
      num_elements = l.num_elements + 1;
      locks = l.locks + 1;
    } in
    (h2, leave_valid h2 l2)

-- The body of `myrefl_list_insert`, given whether the list has the value already.
pub insert_found : Option ℕ → ℕ → ℕ → Heap → Handle → Option Bool → Option (Heap × Handle)
insert_found block prev v h l none = none
insert_found block prev v h l (some true) = some (h, l)
insert_found block prev v h l (some false) =
    let (e, h') = new_list_element block h in
    some (if e == 0 then (h', l) else insert_element e prev v h' l)

-- `myrefl_list_insert`.
pub list_insert : ℕ → Option ℕ → (prev : ℕ) → ℕ → Heap → Handle → Option (Heap × Handle)
list_insert fuel block prev v h l =
    if validate_list h.next l
    then insert_found block prev v h l (list_find fuel h l v)
    else some (h, enter l)

-- `myrefl_list_add`.
abbrev pub list_add : ℕ → Option ℕ → ℕ → Heap → Handle → Option (Heap × Handle)
list_add fuel block v h l = list_insert fuel block 0 v h l

-- The element `current` is unlinked and freed.
pub unlink : (previous current : ℕ) → Heap → Handle → Bool × Heap × Handle
unlink previous current h l =
    let next' = if current == l.head then h.next else update h.next previous (h.next current) in
    let freed = free_list_element current (record h { next = next' }) in
    let l2 = record l {
      head = if current == l.head then h.next current else l.head;
      tail = if current == l.tail then previous else l.tail;
      num_elements = l.num_elements - 1;
    } in
    (validate_list freed.next l2, freed, leave_valid freed l2)

-- The loop of `myrefl_list_remove`, in the critical section.
pub remove_from :
    (fuel : ℕ) → (previous current : ℕ) → ℕ → Heap → Handle → Option (Bool × Heap × Handle)
remove_from zero previous current v h l = none
remove_from (suc fuel) previous current v h l =
    let rest = remove_from fuel current (h.next current) v h l in
    if current == 0
    then some (false, h, leave_valid h l)
    else if h.item current == v
    then some (unlink previous current h l)
    else rest

-- `myrefl_list_remove`.
pub list_remove : ℕ → ℕ → Heap → Handle → Option (Bool × Heap × Handle)
list_remove fuel v h l =
    if validate_list h.next l
    then remove_from fuel 0 l.head v h (enter l)
    else some (false, h, enter l)

-- The loop of `myrefl_list_free`.
pub free_from : (fuel : ℕ) → ℕ → Heap → Option Heap
free_from zero head h = none
free_from (suc fuel) head h =
    let rest = free_from fuel (h.next head) (free_list_element head h) in
    if head == 0 then some h else rest

-- `myrefl_list_free`, but for the handle's own memory.
pub list_free : ℕ → Heap → Handle → Option Heap
list_free fuel h l = free_from fuel l.head h
