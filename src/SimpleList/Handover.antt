-- ===== src/SimpleList/Handover.antt =====
-- list_mount_rear is the hand-over of the contract.
use mathlib.Core.List.{append-nil}
use smi240_android_hal.Prelude.{
  ℕ, ◌+◌, ◌-◌, ◌^◌, ◌≤◌, ◌<◌, ◌≡◌, refl, List, [], ◌∷◌, ◌++◌, arith, length, ltb, if◌then◌else◌,
  length-append,
}
use smi240_android_hal.Prelude.Int.{ℤ, pos, negsuc}
use smi240_android_hal.SimpleList.{SimpleList, Heap}
use smi240_android_hal.SimpleList.Chain.{Cells, IsList, Disjoint}
use smi240_android_hal.SimpleList.Queue.{samples, length-samples}
use smi240_android_hal.SimpleList.Truncate.{code_after, freeing}
use smi240_android_hal.SimpleList.Mount.{Mounted, list_mount_rear-Mounted, excess}
use smi240_android_hal.SimpleList.Fifo.{Fifo, mount_rear}

abbrev pub held : SimpleList → Cells → Fifo ℕ
held l cs = record { items = samples cs; uplimit = l.uplimit }

code_after-beyond :
    (len limit : ℕ) → code_after (len - limit) (pos 0) ≡ (if ltb limit len then negsuc 0 else pos 0)
code_after-beyond len limit = ground (arith)

Mounted-eq :
    (h : Heap) (l m : SimpleList) (cs ds : Cells) (c c' : ℤ) (ys ys' fs : List ℕ)
    → c ≡ c'
    → ys ≡ ys'
    → Mounted h l m cs ds c ys fs
    → Mounted h l m cs ds c' ys' fs
Mounted-eq h l m cs ds c c' ys ys' fs p e r = rw (← p, ← e) r

-- What list_mount_rear does to two lists without a common node is what the contract says of the
-- queues that they hold, under the same bounds, and leaves other nodes alone.
pub list_mount_rear-hands_over :
    (h : Heap) (l m : SimpleList) (cs ds : Cells)
    → IsList h l cs
    → IsList h m ds
    → Disjoint cs ds
    → length cs ≤ l.uplimit
    → length cs + length ds < 2 ^ 32
    → let r = mount_rear (held l cs) (held m ds) in
      Mounted h l m cs ds r.2 r.0.items
        (freeing (excess l.uplimit (samples cs) (samples ds)) (samples cs ++ samples ds) h.freed)
unfolding mount_rear
list_mount_rear-hands_over h l m cs [] v w dis fits small =
    let n = excess l.uplimit (samples cs) [] in
    let z : n ≡ 0 = omega (arith, length-append (samples cs) [], length-samples cs) in
    Mounted-eq h l m cs [] _ _ _ _ _ (rw z refl) (rw z (append-nil (samples cs)))
      (list_mount_rear-Mounted h l m cs [] v w dis fits small)
list_mount_rear-hands_over h l m cs (d ∷ ds) v w dis fits small =
    let codes = code_after-beyond (length (samples cs ++ samples (d ∷ ds))) l.uplimit in
    Mounted-eq h l m cs (d ∷ ds) _ _ _ _ _ (ground (arith, codes)) (ground arith)
      (list_mount_rear-Mounted h l m cs (d ∷ ds) v w dis fits small)
