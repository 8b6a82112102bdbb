-- ===== src/SimpleList/Tests.antt =====
-- The list at concrete heaps.
use smi240_android_hal.Prelude.{
  ℕ, ◌≡◌, refl, true, false, Option, none, some, List, [], ◌∷◌, arith, ◌==◌, if◌then◌else◌,
}
use smi240_android_hal.Prelude.Int.{negsuc}
use smi240_android_hal.SimpleList.{Node, SimpleList, Heap, new_list, list_clean}
use smi240_android_hal.SimpleList.Chain.{Cells, IsList}
use smi240_android_hal.SimpleList.Queue.{Represents, Adds, list_add_rear_enqueues}
use smi240_android_hal.SimpleList.Truncate.{list_clean_frees}
use smi240_android_hal.SimpleList.Mount.{Mounts, list_mount_rear-Mounts}
use smi240_android_hal.SimpleList.Family.{
  add_to, get_from, mount_onto, Operation, operate_all, foresee_all, Family,
}
use smi240_android_hal.SimpleList.Family.Operates.{operate_all-Family}

-- Two nodes that hold the samples 70 and 80, and a third one that holds 90.
abbrev nodes : ℕ → Option Node
nodes p =
    if p == 1
    then some (record { next = some 2; p_data = 70 })
    else if p == 2
    then some (record { next = none; p_data = 80 })
    else if p == 3
    then some (record { next = none; p_data = 90 })
    else none

abbrev three_nodes : Heap
three_nodes = record { cell = nodes; fresh = 4; freed = [] }

abbrev pair_list : SimpleList
pair_list = record { head = some 1; tail = some 2; list_len = 2; uplimit = 2 }

abbrev single_list : SimpleList
single_list = record { head = some 3; tail = some 3; list_len = 1; uplimit = 2 }

pair_IsList : IsList three_nodes pair_list ((1, 70) ∷ (2, 80) ∷ [])
pair_IsList = record {
  chain = (refl, (some 2, refl, (refl, (none, refl, refl), tt)), ((λ e. omega arith), tt));
  below = (omega arith, (omega arith, tt));
  tail_fits = refl;
  len = refl;
}

single_IsList : IsList three_nodes single_list ((3, 90) ∷ [])
single_IsList = record {
  chain = (refl, (none, refl, refl), tt);
  below = (omega arith, tt);
  tail_fits = refl;
  len = refl;
}

pair_holds : Represents three_nodes pair_list (70 ∷ 80 ∷ [])
pair_holds = ((1, 70) ∷ (2, 80) ∷ [], pair_IsList, refl)

list_add_rear_enqueues_example : Adds three_nodes pair_list 60 (negsuc 1) (80 ∷ 60 ∷ []) (70 ∷ [])
list_add_rear_enqueues_example =
    list_add_rear_enqueues three_nodes pair_list 60 (70 ∷ 80 ∷ []) pair_holds (omega arith)
      (omega arith) (omega arith)

list_mount_rear-Mounts_example :
    Mounts three_nodes pair_list single_list (negsuc 0) (80 ∷ 90 ∷ []) (70 ∷ [])
list_mount_rear-Mounts_example =
    list_mount_rear-Mounts three_nodes pair_list single_list ((1, 70) ∷ (2, 80) ∷ []) ((3, 90) ∷ [])
      pair_IsList single_IsList (((λ e. omega arith), tt), (((λ e. omega arith), tt), tt))
      (omega arith) (omega arith)

list_clean_frees_example :
    (l' : SimpleList) × (h' : Heap) × (list_clean 2 pair_list three_nodes ≡ some (l', h'))
    × Represents h' l' []
    × (h'.freed ≡ 80 ∷ 70 ∷ [])
list_clean_frees_example =
    list_clean_frees 2 three_nodes pair_list ((1, 70) ∷ (2, 80) ∷ []) pair_IsList (omega arith)

abbrev no_nodes : Heap
no_nodes = record { cell = λ p. none; fresh = 1; freed = [] }

new_list_limit : new_list.uplimit ≡ 128
unfolding new_list
new_list_limit = refl

-- The five lists of class BoschSensor: what is polled into two of them is mounted onto the third.
abbrev handover_calls : List Operation
handover_calls =
    add_to 0 true 7
    ∷ add_to 1 true 8
    ∷ add_to 0 false 9
    ∷ mount_onto 2 0
    ∷ mount_onto 2 1
    ∷ get_from 2
    ∷ add_to 3 true 7
    ∷ []

abbrev empty_heap : Heap
empty_heap = record { cell = λ p. none; fresh = 1; freed = [] }

abbrev new_lists : ℕ → SimpleList
new_lists k = new_list

new_lists-Family : Family empty_heap new_lists (λ k. record { items = []; uplimit = 128 }) (λ k. [])
unfolding new_list
new_lists-Family = record {
  formed = λ k. record { chain = refl; below = tt; tail_fits = tt; len = refl };
  bounded = λ k. record { fits = omega arith; positive = omega arith; small = omega arith };
  holds = λ k. refl;
  apart = λ j k ne. tt;
}

handed_over :
    (foresee_all handover_calls (λ k. record { items = []; uplimit = 128 })).0 2
    ≡ record { items = 8 ∷ []; uplimit = 128 }
unfolding foresee_all
handed_over = refl

operate_all-Family_example :
    let e = foresee_all handover_calls (λ k. record { items = []; uplimit = 128 }) in
    (ls : ℕ → SimpleList) × (h : Heap) × (cells : ℕ → Cells) × (operate_all handover_calls new_lists
        empty_heap
      ≡ some ((ls, e.1), h))
    × Family h ls e.0 cells
operate_all-Family_example =
    operate_all-Family handover_calls empty_heap new_lists
      (λ k. record { items = []; uplimit = 128 }) (λ k. [])
      ((λ e. omega arith), ((λ e. omega arith), tt)) new_lists-Family
