-- ===== src/SimpleList/Family/Operates.antt =====
-- The operations of several lists on one heap against the contract.
use smi240_android_hal.Prelude.{
  ℕ, ◌≡◌, ◌≢◌, refl, sym, Bool, some, List, [], ◌∷◌, ◌++◌, arith, ◌==◌, Bool-cases, inl, inr,
}
use smi240_android_hal.SimpleList.{SimpleList, Heap, ◌>>=◌}
use smi240_android_hal.SimpleList.Chain.{Cells, Disjoint}
use smi240_android_hal.SimpleList.Frame.{Keeps-nil, Disjoint-append}
use smi240_android_hal.SimpleList.Fifo.{Fifo, mount_rear}
use smi240_android_hal.SimpleList.Handover.{held}
use smi240_android_hal.SimpleList.Runs.{Answer}
use smi240_android_hal.SimpleList.Steps.{add_step, get_step, mount_step}
use smi240_android_hal.SimpleList.Family.{
  set, Operation, add_to, get_from, mount_onto, operate, operate_all, foresee, foresee_all,
  AreApart, Family, changed,
}

-- What an operation does to the lists.
abbrev pub Operates : Heap → (ℕ → SimpleList) → Operation → (ℕ → Fifo ℕ) × Answer → Type 0
Operates h ls o e =
    (ls' : ℕ → SimpleList) × (h' : Heap) × (cells : ℕ → Cells) × (operate o ls h
      ≡ some ((ls', e.1), h'))
    × Family h' ls' e.0 cells

module _ (h : Heap) (ls : ℕ → SimpleList) (cells : ℕ → Cells) where
  abbrev all_held : ℕ → Fifo ℕ
  all_held k = held (ls k) (cells k)

  operate-adds :
      (k : ℕ) (ok : Bool) (d : ℕ)
      → Family h ls all_held cells
      → Operates h ls (add_to k ok d) (foresee (add_to k ok d) all_held)
  unfolding operate foresee
  operate-adds k ok d v =
      let (l', h', cs', e, b) = add_step ok d h (ls k) (cells k) (v.formed k) (v.bounded k) in
      (
        set ls k l',
        h',
        set cells k cs',
        rw (e, ◌>>=◌) refl,
        changed h h' ls all_held cells k (cells k) cs' l' _ v
            (λ j ne. v.apart j k (λ e'. ne (sym e'))) b,
      )

  operate-gets :
      (k : ℕ)
      → Family h ls all_held cells
      → Operates h ls (get_from k) (foresee (get_from k) all_held)
  unfolding operate foresee
  operate-gets k v =
      let (l', h', cs', e, b) = get_step h (ls k) (cells k) (v.formed k) (v.bounded k) in
      (
        set ls k l',
        h',
        set cells k cs',
        rw (e, ◌>>=◌) refl,
        changed h h' ls all_held cells k (cells k) cs' l' _ v
            (λ j ne. v.apart j k (λ e'. ne (sym e'))) b,
      )

  mounted-apart :
      (k j : ℕ)
      → Family h ls all_held cells
      → (i : ℕ) → k ≢ i
      → Disjoint (set cells j [] i) (cells k ++ cells j)
  mounted-apart k j v i ne = elim (Bool-cases (j == i)) [
    | inl e ↦ rw e tt
    | inr e ↦ rw e (
        Disjoint-append (cells i) (cells k) (cells j) (v.apart i k (λ e'. ne (sym e')))
          (v.apart i j (ground (arith, e))))
  ]

  operate-mounts :
      (k j : ℕ)
      → k ≢ j
      → Family h ls all_held cells
      → Operates h ls (mount_onto k j) (foresee (mount_onto k j) all_held)
  unfolding operate foresee
  operate-mounts k j ne v =
      let (l', m', h', cs', e, b, f, c, none_left) =
        mount_step h (ls k) (ls j) (cells k) (cells j) (v.formed k) (v.formed j) (v.apart k j ne)
          (v.bounded k) (v.bounded j) in
      let q = mount_rear (all_held k) (all_held j) in
      let without =
        changed h h ls all_held cells j (cells j) [] m' q.1 v
          (λ i ni. v.apart i j (λ e'. ni (sym e')))
          (record { formed = f; bounded = c; holds = none_left; keeps = Keeps-nil h (cells j) }) in
      (
        set (set ls j m') k l',
        h',
        set (set cells j []) k cs',
        rw (e, ◌>>=◌) refl,
        changed h h' (set ls j m') (set all_held j q.1) (set cells j []) k (cells k ++ cells j) cs'
            l' q.0 without (mounted-apart k j v) b,
      )

  operate-one :
      (o : Operation)
      → AreApart (o ∷ [])
      → Family h ls all_held cells
      → Operates h ls o (foresee o all_held)
  operate-one (add_to k ok d) away v = operate-adds k ok d v
  operate-one (get_from k) away v = operate-gets k v
  operate-one (mount_onto k j) away v = operate-mounts k j away.0 v

-- An operation of a list gives what the contract gives, and leaves the other lists alone.
operate-foresee :
    (o : Operation) (h : Heap) (ls : ℕ → SimpleList) (qs : ℕ → Fifo ℕ) (cells : ℕ → Cells)
    → AreApart (o ∷ [])
    → Family h ls qs cells
    → Operates h ls o (foresee o qs)
operate-foresee o h ls qs cells ne v =
    let same : all_held h ls cells ≡ qs = λ i k. v.holds k i in
    rw same at (
      operate-one h ls cells o ne
        (record { formed = v.formed; bounded = v.bounded; holds = λ k. refl; apart = v.apart }))

first-AreApart :
    (o : Operation) (os : List Operation) → AreApart (o ∷ os) → AreApart (o ∷ []) × AreApart os
first-AreApart (add_to k ok d) os away = (tt, away)
first-AreApart (get_from k) os away = (tt, away)
first-AreApart (mount_onto k j) os away = ((away.0, tt), away.1)

-- For lists on one heap that are well formed and within their limits, no two with a common node,
-- where each limit is positive and below 2^31: whatever calls of list_add_rear, malloc failing or not,
-- list_get_headdata and list_mount_rear are made on them, in whatever order, none of which mounts a
-- list onto itself, none touches an invalid pointer, each gives what separate bounded queues give that
-- drop their oldest samples when they are full, and the lists are again well formed, without a common
-- node, and hold the samples of those queues.
pub operate_all-Family :
    (os : List Operation) (h : Heap) (ls : ℕ → SimpleList) (qs : ℕ → Fifo ℕ) (cells : ℕ → Cells)
    → AreApart os
    → Family h ls qs cells
    → (ls' : ℕ → SimpleList) × (h' : Heap) × (cells' : ℕ → Cells) × (operate_all os ls h
        ≡ some ((ls', (foresee_all os qs).1), h'))
      × Family h' ls' (foresee_all os qs).0 cells'
unfolding operate_all foresee_all
operate_all-Family [] h ls qs cells away v = (ls, h, cells, refl, v)
operate_all-Family (o ∷ os) h ls qs cells away v =
    let (one, rest) = first-AreApart o os away in
    let (ls₁, h₁, cells₁, e₁, v₁) = operate-foresee o h ls qs cells one v in
    let (ls', h', cells', e', v') = operate_all-Family os h₁ ls₁ (foresee o qs).0 cells₁ rest v₁ in
    (ls', h', cells', rw (e₁, ◌>>=◌) (rw (e', ◌>>=◌) refl), v')
