-- ===== src/Tests/Linked.antt =====
-- A list of two elements on a heap with two free ones, and an element of another list.
use myreflection.Common.{◌≡◌, refl, none, [], ◌∷◌, arith, ◌==◌, if◌then◌else◌, has}
use myreflection.Util.{Heap, Handle, list_pop, list_peek, list_insert, list_remove}
use myreflection.Util.Chain.{values, last_of}
use myreflection.Util.Stores.{Stores}
use myreflection.Util.Pop.{list_peek-list_pop}
use myreflection.Util.Remove.{Removed, list_remove-Removed}
use myreflection.Util.Insert.{Inserted, list_insert-Inserted}

-- 1 and 2 are on the list, 3 and 4 free, and 5 is another list's.
abbrev heap : Heap
heap = record {
  next = λ a. if a == 1 then 2 else if a == 3 then 4 else 0;
  item = λ a. if a == 1 then 7 else if a == 2 then 8 else if a == 5 then 9 else 0;
  free = 3;
}

abbrev pair : Handle
pair = record { head = 1; tail = 2; num_elements = 2; locks = 0 }

pair-Stores : Stores heap pair (1 ∷ 2 ∷ []) (5 ∷ []) (3 ∷ 4 ∷ []) (7 ∷ 8 ∷ [])
unfolding has values last_of
pair-Stores = record {
  is_list = record {
    chain = (refl, ground arith, (refl, ground arith, refl));
    once = (refl, (refl, tt));
    ends = refl;
    count = refl;
  };
  is_pool = record {
    chain = (refl, ground arith, (refl, ground arith, refl));
    once = (refl, (refl, tt));
  };
  unused = λ a m. ground (arith, m);
  others_used = λ a m. ground (arith, m);
  separate = λ a m. ground (arith, m);
  holds = refl;
}

list_peek-list_pop_example : list_peek heap pair ≡ (list_pop heap pair).0
list_peek-list_pop_example =
    list_peek-list_pop heap pair (1 ∷ 2 ∷ []) (5 ∷ []) (3 ∷ 4 ∷ []) (7 ∷ 8 ∷ []) pair-Stores

list_remove-Removed_example : Removed 8 heap pair (5 ∷ []) (7 ∷ 8 ∷ []) (list_remove 3 8 heap pair)
list_remove-Removed_example =
    list_remove-Removed 3 8 heap pair (1 ∷ 2 ∷ []) (5 ∷ []) (3 ∷ 4 ∷ []) (7 ∷ 8 ∷ []) pair-Stores
      (omega arith)

list_insert-Inserted_example :
    Inserted none 6 heap pair
      (1 ∷ [])
      (2 ∷ [])
      (5 ∷ [])
      (7 ∷ 8 ∷ [])
      (list_insert 3 none 1 6 heap pair)
unfolding last_of
list_insert-Inserted_example =
    list_insert-Inserted 3 none 6 heap pair (1 ∷ []) (2 ∷ []) (5 ∷ []) (3 ∷ 4 ∷ []) (7 ∷ 8 ∷ [])
      pair-Stores tt (omega arith)
