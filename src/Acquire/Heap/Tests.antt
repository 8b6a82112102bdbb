-- ===== src/Acquire/Heap/Tests.antt =====
-- The lists at a concrete heap.
use smi240_android_hal.Prelude.{
  ℕ, ◌≡◌, refl, true, none, some, List, Option, ◌==◌, ◌≢◌, if◌then◌else◌, Bool-cases, inl, inr, [],
  ◌∷◌, arith, map,
}
use smi240_android_hal.Acquire.{Sample, hand_over, sensord_read_rawdata}
use smi240_android_hal.SimpleList.{Node, SimpleList, Heap}
use smi240_android_hal.SimpleList.Chain.{Cells, IsList, Disjoint}
use smi240_android_hal.SimpleList.Fifo.{Fifo}
use smi240_android_hal.SimpleList.Handover.{held}
use smi240_android_hal.SimpleList.Runs.{Answer}
use smi240_android_hal.SimpleList.Steps.{IsBounded}
use smi240_android_hal.SimpleList.Family.{foresee_all, operate_all, Family}
use smi240_android_hal.Acquire.Heap.{lists_at, hand_over_calls, read_calls, round_on_heap}
use smi240_android_hal.Acquire.Tests.{board, sample_at, rotation_at}

-- The first list holds a sample of the accelerometer, the second one of the gyroscope.
abbrev two_nodes : ℕ → Option Node
two_nodes a =
    if a == 1
    then some (record { next = none; p_data = 7 })
    else if a == 2
    then some (record { next = none; p_data = 8 })
    else none

abbrev two_on_heap : Heap
two_on_heap = record { cell = two_nodes; fresh = 3; freed = [] }

abbrev one_node : ℕ → SimpleList
one_node a = record { head = some a; tail = some a; list_len = 1; uplimit = 128 }

abbrev no_node : SimpleList
no_node = record { head = none; tail = none; list_len = 0; uplimit = 128 }

abbrev polled_lists : ℕ → SimpleList
polled_lists k = if k == 0 then one_node 1 else if k == 1 then one_node 2 else no_node

abbrev polled_cells : ℕ → Cells
polled_cells k = if k == 0 then (1, 7) ∷ [] else if k == 1 then (2, 8) ∷ [] else []

abbrev sample_of_address : ℕ → Sample ℕ
sample_of_address a = if a == 7 then sample_at 5 else rotation_at 6

polled-IsList : (k : ℕ) → IsList two_on_heap (polled_lists k) (polled_cells k)
polled-IsList k = elim (Bool-cases (k == 0)) [
  | inl zero ↦ rw zero (record {
    chain = (refl, (none, refl, refl), tt);
    below = (omega arith, tt);
    tail_fits = refl;
    len = refl;
  })
  | inr more ↦ elim (Bool-cases (k == 1)) [
    | inl one ↦
        rw (more, one)
          (record {
            chain = (refl, (none, refl, refl), tt);
            below = (omega arith, tt);
            tail_fits = refl;
            len = refl;
          })
    | inr others ↦
        rw (more, others) (record { chain = refl; below = tt; tail_fits = tt; len = refl })
  ]
]

polled-IsBounded : (k : ℕ) → IsBounded (polled_lists k) (polled_cells k)
polled-IsBounded k = elim (Bool-cases (k == 0)) [
  | inl zero ↦ rw zero (record { fits = omega arith; positive = omega arith; small = omega arith })
  | inr more ↦ elim (Bool-cases (k == 1)) [
    | inl one ↦
        rw (more, one) (record { fits = omega arith; positive = omega arith; small = omega arith })
    | inr others ↦
        rw (more, others)
          (record { fits = omega arith; positive = omega arith; small = omega arith })
  ]
]

polled-apart : (j k : ℕ) → j ≢ k → Disjoint (polled_cells j) (polled_cells k)
polled-apart j k ne = elim (Bool-cases (j == 0)) [
  | inl j0 ↦ elim (Bool-cases (k == 0)) [
    | inl k0 ↦ absurd (ground (arith, j0, k0, ne))
    | inr k1 ↦ elim (Bool-cases (k == 1)) [
      | inl one ↦ rw (j0, k1, one) (((λ e. omega arith), tt), tt)
      | inr others ↦ rw (j0, k1, others) (tt, tt)
    ]
  ]
  | inr j1 ↦ elim (Bool-cases (j == 1)) [
    | inl one ↦ elim (Bool-cases (k == 0)) [
      | inl k0 ↦ rw (j1, one, k0) (((λ e. omega arith), tt), tt)
      | inr k1 ↦ elim (Bool-cases (k == 1)) [
        | inl k_one ↦ absurd (ground (arith, one, k_one, ne))
        | inr others ↦ rw (j1, one, k1, others) (tt, tt)
      ]
    ]
    | inr others ↦ rw (j1, others) tt
  ]
]

round_on_heap_example :
    let qs : ℕ → Fifo ℕ = λ k. held (polled_lists k) (polled_cells k) in
    let shared = ((foresee_all (hand_over_calls board sample_of_address) qs).0 2).items in
    (ls₁ : ℕ → SimpleList) × (ls₂ : ℕ → SimpleList) × (h₁ : Heap) × (h₂ : Heap) × (out₁ : List
      Answer)
    × (out₂ : List Answer) × (qs' : ℕ → Fifo ℕ) × (cells' : ℕ → Cells) × (operate_all
          (hand_over_calls board sample_of_address)
          polled_lists
          two_on_heap
        ≡ some ((ls₁, out₁), h₁))
    × (operate_all (read_calls board sample_of_address (λ k. true) shared) ls₁ h₁
        ≡ some ((ls₂, out₂), h₂))
    × Family h₂ ls₂ qs' cells'
    × (lists_at board sample_of_address qs'
        ≡ sensord_read_rawdata board true
            (λ k. true)
            (hand_over board (lists_at board sample_of_address qs)))
round_on_heap_example =
    round_on_heap board sample_of_address (λ k. true) two_on_heap polled_lists
      (λ k. held (polled_lists k) (polled_cells k)) polled_cells
      (record {
        formed = polled-IsList;
        bounded = polled-IsBounded;
        holds = λ k. refl;
        apart = polled-apart;
      })

-- Each chip's list has its sample, and the others are empty.
read_on_heap :
    let qs : ℕ → Fifo ℕ = λ k. held (polled_lists k) (polled_cells k) in
    let over = (foresee_all (hand_over_calls board sample_of_address) qs).0 in
    let read =
      (foresee_all (read_calls board sample_of_address (λ k. true) ((over 2).items)) over).0 in
    map (λ k. (read k).items) (0 ∷ 1 ∷ 2 ∷ 3 ∷ 4 ∷ []) ≡ [] ∷ [] ∷ [] ∷ (7 ∷ []) ∷ (8 ∷ []) ∷ []
unfolding foresee_all
read_on_heap = refl
