-- ===== src/SimpleList/Family.antt =====
-- Several lists on one heap, as class BoschSensor has them: their operations, in any order, do not
-- get in each other's way.
pub mod Operates
use smi240_android_hal.Prelude.{
  ℕ, ◌+◌, ◌^◌, ◌≤◌, ◌<◌, ◌≡◌, ◌≢◌, refl, ap, ◌∙◌, sym, Bool, true, false, some, List, [], ◌∷◌, ◌++◌,
  arith, ◌==◌, if◌then◌else◌, Bool-cases, inl, inr,
}
use smi240_android_hal.SimpleList.{
  SimpleList, Heap, Exec, pure, ◌>>=◌, list_add_rear, list_get_headdata, list_mount_rear,
}
use smi240_android_hal.SimpleList.Chain.{Cells, IsList, Disjoint}
use smi240_android_hal.SimpleList.Frame.{
  Keeps, Keeps-nil, Disjoint-nil, Disjoint-sym, Disjoint-append, kept-IsList, kept-Disjoint,
}
use smi240_android_hal.SimpleList.Fifo.{Fifo, add_rear, get_headdata, mount_rear}
use smi240_android_hal.SimpleList.Handover.{held}
use smi240_android_hal.SimpleList.Runs.{Answer, code, sample}
use smi240_android_hal.SimpleList.Steps.{IsBounded, Becomes, add_step, get_step, mount_step}

abbrev pub set {ℓ} : {A : Type ℓ} → (ℕ → A) → ℕ → A → ℕ → A
set f k a j = if k == j then a else f j

-- A call of the list with a number; `mount` says onto which list, and which one.
pub data Operation : Type 0 where
  add_to : ℕ → Bool → ℕ → Operation
  get_from : ℕ → Operation
  mount_onto : ℕ → ℕ → Operation

unfoldable pub operate : Operation → (ℕ → SimpleList) → Exec ((ℕ → SimpleList) × Answer)
unfolding list_add_rear list_get_headdata list_mount_rear
operate (add_to k ok d) ls = list_add_rear ok d (ls k) >>= λ r. pure (set ls k r.0, code r.1)
operate (get_from k) ls = list_get_headdata (ls k) >>= λ r. pure (set ls k r.0, sample r.1)
operate (mount_onto k j) ls =
    list_mount_rear (ls k) (ls j) >>= λ r. pure (set (set ls j r.1) k r.0, code r.2)

unfoldable pub operate_all :
    List Operation → (ℕ → SimpleList) → Exec ((ℕ → SimpleList) × List Answer)
unfolding operate
operate_all [] ls = pure (ls, [])
operate_all (o ∷ os) ls = operate o ls >>= λ r. operate_all os r.0 >>= λ r'. pure (r'.0, r.1 ∷ r'.1)

-- The same by the contract, on queues that have nothing in common.
unfoldable pub foresee : Operation → (ℕ → Fifo ℕ) → (ℕ → Fifo ℕ) × Answer
unfolding add_rear get_headdata mount_rear
foresee (add_to k ok d) qs = let (q, c) = add_rear ok d (qs k) in (set qs k q, code c)
foresee (get_from k) qs = let (q, o) = get_headdata (qs k) in (set qs k q, sample o)
foresee (mount_onto k j) qs =
    let (q, m, c) = mount_rear (qs k) (qs j) in (set (set qs j m) k q, code c)

unfoldable pub foresee_all : List Operation → (ℕ → Fifo ℕ) → (ℕ → Fifo ℕ) × List Answer
unfolding foresee
foresee_all [] qs = (qs, [])
foresee_all (o ∷ os) qs =
    let (qs', a) = foresee o qs in let (qs'', rest) = foresee_all os qs' in (qs'', a ∷ rest)

-- No list is mounted onto itself.
abbrev pub AreApart : List Operation → Type 0
AreApart [] = Unit {0}
AreApart (add_to k ok d ∷ os) = AreApart os
AreApart (get_from k ∷ os) = AreApart os
AreApart (mount_onto k j ∷ os) = (k ≢ j) × AreApart os

-- Each list is well formed and within its limit and holds what its queue does; no two share a node.
pub record Family (h : Heap) (ls : ℕ → SimpleList) (qs : ℕ → Fifo ℕ) (cells : ℕ → Cells)
    : Type 0 where
  pub formed : (k : ℕ) → IsList h (ls k) (cells k)
  pub bounded : (k : ℕ) → IsBounded (ls k) (cells k)
  pub holds : (k : ℕ) → held (ls k) (cells k) ≡ qs k
  pub apart : (j k : ℕ) → j ≢ k → Disjoint (cells j) (cells k)

-- The other lists stay apart from the one that an operation on the nodes `old` gave the nodes `cs`.
changed-apart :
    (h h' : Heap) (ls : ℕ → SimpleList) (qs : ℕ → Fifo ℕ) (cells : ℕ → Cells) (k : ℕ)
    (old cs : Cells)
    → Family h ls qs cells
    → ((j : ℕ) → k ≢ j → Disjoint (cells j) old)
    → Keeps h old h' cs
    → (i j : ℕ) → i ≢ j
    → Disjoint (set cells k cs i) (set cells k cs j)
changed-apart h h' ls qs cells k old cs v others keeps i j ne = elim (Bool-cases (k == i)) [
  | inl ei ↦ elim (Bool-cases (k == j)) [
    | inl ej ↦ absurd (ground (arith, ei, ej, ne))
    | inr ej ↦ rw (ei, ej) (Disjoint-sym (cells j) cs (moves j (ground (arith, ej))))
  ]
  | inr ei ↦ elim (Bool-cases (k == j)) [
    | inl ej ↦ rw (ei, ej) (moves i (ground (arith, ei)))
    | inr ej ↦ rw (ei, ej) (v.apart i j ne)
  ]
]
  where
    moves : (n : ℕ) → k ≢ n → Disjoint (cells n) cs
    moves n kn = kept-Disjoint h h' old cs keeps (cells n) (v.formed n).below (others n kn)

-- The list with one number changes, by an operation on the nodes `old`, which no other list has.
pub changed :
    (h h' : Heap) (ls : ℕ → SimpleList) (qs : ℕ → Fifo ℕ) (cells : ℕ → Cells) (k : ℕ)
    (old cs : Cells) (l : SimpleList) (q : Fifo ℕ)
    → Family h ls qs cells
    → ((j : ℕ) → k ≢ j → Disjoint (cells j) old)
    → Becomes h old h' l cs q
    → Family h' (set ls k l) (set qs k q) (set cells k cs)
changed h h' ls qs cells k old cs l q v others b = record {
  formed = λ j. elim (Bool-cases (k == j)) [
    | inl e ↦ rw e b.formed
    | inr e ↦ rw e (
        kept-IsList h h' old cs b.keeps (ls j) (cells j) (others j (ground (arith, e)))
          (v.formed j))
  ];
  bounded = λ j. elim (Bool-cases (k == j)) [ inl e ↦ rw e b.bounded | inr e ↦ rw e (v.bounded j) ];
  holds = λ j. elim (Bool-cases (k == j)) [ inl e ↦ rw e b.holds | inr e ↦ rw e (v.holds j) ];
  apart = changed-apart h h' ls qs cells k old cs v others b.keeps;
}
