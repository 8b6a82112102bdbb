-- ===== src/SimpleList.antt =====
-- BoschSimpleList (legacy/sensord/boschsimple_list.cpp): the bounded queue of hardware samples that
-- the threads of the legacy HAL hand over. The nodes live on an explicit heap; an operation is
-- `none` where the code would read or write through a pointer that is not valid.
pub mod Chain
pub mod Frame
pub mod Ops
pub mod Queue
pub mod Truncate
pub mod Mount
pub mod Fifo
pub mod Kept
pub mod Runs
pub mod Handover
pub mod Steps
pub mod Family
mod Tests
use smi240_android_hal.Prelude.{
  ℕ, zero, suc, ◌+◌, ◌-◌, ◌%◌, ◌^◌, Bool, true, false, Option, none, some, List, [], ◌∷◌, ltb, ◌==◌,
  if◌then◌else◌,
}
use smi240_android_hal.Prelude.Int.{ℤ, pos, negsuc}

-- struct list_node: `p_data` is the address of a sample, which the list never looks into.
pub record Node : Type 0 where
  pub next : Option ℕ
  pub p_data : ℕ

-- class BoschSimpleList: NULL is `none`; `list_len` and `uplimit` are uint32_t.
pub record SimpleList : Type 0 where
  pub head : Option ℕ
  pub tail : Option ℕ
  pub list_len : ℕ
  pub uplimit : ℕ

-- The nodes that are allocated, an address above all that were ever given out, and the samples
-- that were freed, the latest first.
pub record Heap : Type 0 where
  pub cell : ℕ → Option Node
  pub fresh : ℕ
  pub freed : List ℕ

-- A part of an operation that gives an `R`; `none` is an access through an invalid pointer.
abbrev pub Exec : (R : Type 0) → Type 0
Exec R = (before : Heap) → Option (R × Heap)

abbrev pub pure : {R : Type 0} → R → Exec R
pure result before = some (result, before)

infixl 5 ◌>>=◌
abbrev pub ◌>>=◌ : {R S : Type 0} (part : Exec R) (rest : R → Exec S) → Exec S
◌>>=◌ part rest before = elim (part before) [
  | none ↦ none
  | some (result, after) ↦ rest result after
]

abbrev pub update : (ℕ → Option Node) → ℕ → Option Node → ℕ → Option Node
update f p v q = if p == q then v else f q

abbrev pub u32 : ℕ → ℕ
u32 n = n % 2 ^ 32

-- BoschSimpleList::set_uplimit
pub set_uplimit : ℕ → SimpleList → SimpleList
set_uplimit limit l = record l { uplimit = if limit == 0 then 1 else limit }

abbrev pub default_list_len : ℕ
default_list_len = 128

-- The constructor.
unfoldable pub new_list : SimpleList
unfolding set_uplimit
new_list =
    set_uplimit default_list_len (record { head = none; tail = none; list_len = 0; uplimit = 0 })

-- free() of a sample; free(NULL) does nothing.
pub free_data : Option ℕ → Exec (Unit {0})
free_data none h = some (tt, h)
free_data (some d) h = some (tt, record h { freed = d ∷ h.freed })

-- The reads and writes of list_get_headdata through `head`.
take_head : SimpleList → Option ℕ → Exec (SimpleList × Option ℕ)
take_head l none h = none
take_head l (some cur) h = elim (h.cell cur) [
  | none ↦ none
  | some n ↦ some (
    (record l { head = n.next; list_len = l.list_len - 1 }, some n.p_data),
    record h { cell = update h.cell cur none },
  )
]

-- BoschSimpleList::list_get_headdata
unfoldable pub list_get_headdata : SimpleList → Exec (SimpleList × Option ℕ)
unfolding take_head
list_get_headdata l h = if l.list_len == 0 then some ((l, none), h) else take_head l l.head h

-- list_get_headdata(&pdata); free(pdata);
pub drop_oldest : SimpleList → Exec SimpleList
unfolding list_get_headdata free_data
drop_oldest l = list_get_headdata l >>= λ r. free_data r.1 >>= λ _. pure r.0

-- tail->next = p;
pub set_tail_next : Option ℕ → Option ℕ → Exec (Unit {0})
set_tail_next none p h = none
set_tail_next (some t) p h = elim (h.cell t) [
  | none ↦ none
  | some n ↦ some (tt, record h { cell = update h.cell t (some (record n { next = p })) })
]

-- The end of list_add_rear: the new node is filled and linked.
pub link_node : ℕ → ℕ → SimpleList → Exec SimpleList
unfolding set_tail_next
link_node nod pdata l h =
    let h' = record h {
      cell = update h.cell nod (some (record { next = none; p_data = pdata }));
    } in
    elim l.head [
      | none ↦
          some (record l { head = some nod; tail = some nod; list_len = u32 (l.list_len + 1) }, h')
      | some _ ↦
          (set_tail_next l.tail (some nod) >>= λ _.
          pure (record l { tail = some nod; list_len = u32 (l.list_len + 1) }))
            h'
    ]

-- malloc of a node that succeeds; what it holds is written before it is read.
pub malloc_node : Exec ℕ
malloc_node h = some (
  h.fresh,
  record h {
    fresh = h.fresh + 1;
    cell = update h.cell h.fresh (some (record { next = none; p_data = 0 }));
  },
)

-- What list_add_rear does with the node that malloc gave.
pub add_node : ℕ → SimpleList → ℕ → Exec (SimpleList × ℤ)
unfolding drop_oldest link_node
add_node pdata l nod =
    if l.list_len == l.uplimit
    then (drop_oldest l >>= λ l'. link_node nod pdata l' >>= λ l''. pure (l'', negsuc 1))
    else (link_node nod pdata l >>= λ l''. pure (l'', pos 0))

-- BoschSimpleList::list_add_rear; the first argument says whether malloc succeeds.
unfoldable pub list_add_rear : Bool → ℕ → SimpleList → Exec (SimpleList × ℤ)
unfolding malloc_node add_node
list_add_rear false pdata l h = some ((l, negsuc 0), h)
list_add_rear true pdata l h = (malloc_node >>= add_node pdata l) h

-- while (list_len > uplimit) { ret = -1; list_get_headdata(&pdata); free(pdata); }, for at most as
-- many rounds as the fuel says.
pub truncate : ℕ → ℤ → SimpleList → Exec (SimpleList × ℤ)
unfolding drop_oldest
truncate zero ret l h = some ((l, ret), h)
truncate (suc fuel) ret l h = elim (ltb l.uplimit l.list_len) [
  | true ↦ elim (drop_oldest l h) [ none ↦ none | some (l', h') ↦ truncate fuel (negsuc 0) l' h' ]
  | false ↦ some ((l, ret), h)
]

-- The splice of list_mount_rear.
pub splice : SimpleList → SimpleList → Exec SimpleList
unfolding set_tail_next
splice l m = elim l.head [
  | none ↦
      pure (record l { head = m.head; tail = m.tail; list_len = u32 (l.list_len + m.list_len) })
  | some _ ↦ set_tail_next l.tail m.head >>= λ _.
      pure (record l { tail = m.tail; list_len = u32 (l.list_len + m.list_len) })
]

-- BoschSimpleList::list_mount_rear, for a list other than `this`. The result is `this`, the list
-- mounted, and what the call returns.
unfoldable pub list_mount_rear : SimpleList → SimpleList → Exec (SimpleList × SimpleList × ℤ)
unfolding splice truncate
list_mount_rear l m =
    if m.list_len == 0
    then pure (l, m, pos 0)
    else (splice l m >>= λ l'. truncate l'.list_len (pos 0) l' >>= λ r.
        pure (r.0, record m { head = none; tail = none; list_len = 0 }, r.1))

-- BoschSimpleList::list_clean
unfoldable pub list_clean : ℕ → SimpleList → Exec SimpleList
unfolding drop_oldest
list_clean zero l h = some (l, h)
list_clean (suc fuel) l h = elim (l.list_len == 0) [
  | true ↦ some (l, h)
  | false ↦ elim (drop_oldest l h) [ none ↦ none | some (l', h') ↦ list_clean fuel l' h' ]
]
