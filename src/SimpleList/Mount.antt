-- ===== src/SimpleList/Mount.antt =====
-- list_mount_rear.
use mathlib.Core.List.{append-nil}
use smi240_android_hal.Prelude.{
  ℕ, zero, suc, ◌+◌, ◌-◌, ◌^◌, ◌≤◌, ◌<◌, ◌≡◌, refl, ap, sym, ◌∙◌, false, Option, none, some, List,
  [], ◌∷◌, ◌++◌, arith, length, drop, ◌==◌, length-append,
}
use smi240_android_hal.Prelude.Int.{ℤ, pos}
use smi240_android_hal.SimpleList.{SimpleList, Heap, update, splice, list_mount_rear, ◌>>=◌}
use smi240_android_hal.SimpleList.Chain.{
  Cells, IsList, Below-append, Disjoint, TailFits, NotIn-last, last_of, link-Chain,
}
use smi240_android_hal.SimpleList.Frame.{Keeps, Keeps-refl, Keeps-trans, NotIn-left}
use smi240_android_hal.SimpleList.Ops.{TailFits-append}
use smi240_android_hal.SimpleList.Queue.{samples, Represents, length-samples, samples-append}
use smi240_android_hal.SimpleList.Truncate.{freeing, code_after, truncate_lem}

TailFits-join :
    (c b : ℕ × ℕ) (cs ds : Cells) (t : Option ℕ)
    → TailFits t (b ∷ ds)
    → TailFits t ((c ∷ cs) ++ b ∷ ds)
TailFits-join c b cs ds t h = h ∙ ap some (sym (TailFits-append c b cs ds))

-- Joining two lists that share no node: all nodes of the second come behind those of the first.
splice_lem :
    (h : Heap) (l m : SimpleList) (cs : Cells) (d : ℕ × ℕ) (ds : Cells)
    → IsList h l cs
    → IsList h m (d ∷ ds)
    → Disjoint cs (d ∷ ds)
    → length cs + length (d ∷ ds) < 2 ^ 32
    → (l' : SimpleList) × (h' : Heap) × (splice l m h ≡ some (l', h'))
      × IsList h' l' (cs ++ d ∷ ds)
      × (l'.uplimit ≡ l.uplimit)
      × (h'.freed ≡ h.freed)
      × Keeps h (cs ++ d ∷ ds) h' (cs ++ d ∷ ds)
unfolding splice
splice_lem h l m [] d ds v w dis small = (
  record l { head = m.head; tail = m.tail; list_len = m.list_len },
  h,
  ground (arith, v.chain, v.len, w.len),
  record { chain = w.chain; below = w.below; tail_fits = w.tail_fits; len = w.len },
  refl,
  refl,
  Keeps-refl h (d ∷ ds),
)
splice_lem h l m (c ∷ cs) d ds v w dis small =
    let (n, fn, joined) = link-Chain h.cell l.head m.head c cs (d ∷ ds) v.chain w.chain dis in
    (
      record l { tail = m.tail; list_len = l.list_len + m.list_len },
      record h { cell = update h.cell (last_of c.0 cs) (some (record n { next = m.head })) },
      ground (arith, v.chain.0, v.tail_fits, fn, v.len, w.len),
      record {
        chain = joined;
        below = Below-append h.fresh (c ∷ cs) (d ∷ ds) v.below w.below;
        tail_fits = TailFits-join c d cs ds m.tail w.tail_fits;
        len = omega (arith, v.len, w.len, length-append (c ∷ cs) (d ∷ ds));
      },
      refl,
      refl,
      record {
        higher = omega arith;
        same = λ a b n'.
            let own = NotIn-left a (c ∷ cs) (d ∷ ds) n' in
            ground (arith, NotIn-last a c.0 cs own.0 own.1);
        apart = λ a b n'. n';
      },
    )

abbrev emptied : SimpleList → SimpleList
emptied m = record m { head = none; tail = none; list_len = 0 }

-- What list_mount_rear gives: the first list with `ys`, the other one empty, and the samples freed.
abbrev pub Mounts : Heap → SimpleList → SimpleList → ℤ → List ℕ → List ℕ → Type 0
Mounts h l m code ys freed =
    (l' : SimpleList) × (m' : SimpleList) × (h' : Heap) × (list_mount_rear l m h
      ≡ some ((l', m', code), h'))
    × Represents h' l' ys
    × Represents h' m' []
    × (l'.uplimit ≡ l.uplimit)
    × (h'.freed ≡ freed)

-- The same for lists with the nodes `cs` and `ds`, of which other lists see nothing.
abbrev pub Mounted : Heap → SimpleList → SimpleList → Cells → Cells → ℤ → List ℕ → List ℕ → Type 0
Mounted h l m cs ds code ys freed =
    (l' : SimpleList) × (m' : SimpleList) × (h' : Heap) × (cs' : Cells) × (list_mount_rear l m h
      ≡ some ((l', m', code), h'))
    × IsList h' l' cs'
    × (samples cs' ≡ ys)
    × IsList h' m' []
    × (l'.uplimit ≡ l.uplimit)
    × (m'.uplimit ≡ m.uplimit)
    × (h'.freed ≡ freed)
    × Keeps h (cs ++ ds) h' cs'

samples-drop : (n : ℕ) (cs : Cells) → samples (drop n cs) ≡ drop n (samples cs)
samples-drop zero cs = refl
samples-drop (suc n) [] = refl
samples-drop (suc n) (c ∷ cs) = samples-drop n cs

-- How many samples two lists hold beyond the limit.
abbrev pub excess : ℕ → List ℕ → List ℕ → ℕ
excess limit xs ys = length (xs ++ ys) - limit

mount_cells :
    (h : Heap) (l m : SimpleList) (cs : Cells) (d : ℕ × ℕ) (ds : Cells)
    → IsList h l cs
    → IsList h m (d ∷ ds)
    → Disjoint cs (d ∷ ds)
    → length cs + length (d ∷ ds) < 2 ^ 32
    → let n = length (cs ++ d ∷ ds) - l.uplimit in
      Mounted h l m cs
        (d ∷ ds)
        (code_after n (pos 0))
        (drop n (samples (cs ++ d ∷ ds)))
        (freeing n (samples (cs ++ d ∷ ds)) h.freed)
unfolding list_mount_rear
mount_cells h l m cs d ds v w dis small =
    let n : ℕ = length (cs ++ d ∷ ds) - l.uplimit in
    let (l₁, h₁, e₁, w₁, up₁, freed₁, k₁) = splice_lem h l m cs d ds v w dis small in
    let (l', h', e', w', up', freed', k') =
      truncate_lem l₁.list_len n (pos 0) h₁ l₁ (cs ++ d ∷ ds) w₁ (omega (arith, up₁))
        (omega (arith, w₁.len)) in
    let some_left : (m.list_len == 0) ≡ false = ground (arith, w.len) in
    (
      l',
      emptied m,
      h',
      drop n (cs ++ d ∷ ds),
      rw some_left (rw (e₁, ◌>>=◌) (rw (e', ◌>>=◌) refl)),
      w',
      samples-drop n (cs ++ d ∷ ds),
      record { chain = refl; below = tt; tail_fits = tt; len = refl },
      up' ∙ up₁,
      refl,
      freed' ∙ ap (freeing n (samples (cs ++ d ∷ ds))) freed₁,
      Keeps-trans h h₁ h' (cs ++ d ∷ ds) (cs ++ d ∷ ds) (drop n (cs ++ d ∷ ds)) k₁ k',
    )

pub list_mount_rear-Mounted :
    (h : Heap) (l m : SimpleList) (cs ds : Cells)
    → IsList h l cs
    → IsList h m ds
    → Disjoint cs ds
    → length cs ≤ l.uplimit
    → length cs + length ds < 2 ^ 32
    → let n = excess l.uplimit (samples cs) (samples ds) in
      Mounted h l m cs ds
        (code_after n (pos 0))
        (drop n (samples cs ++ samples ds))
        (freeing n (samples cs ++ samples ds) h.freed)
unfolding list_mount_rear
list_mount_rear-Mounted h l m cs [] v w dis fits small =
    let z : length (samples cs ++ []) - l.uplimit ≡ 0 =
      omega (arith, length-append (samples cs) [], length-samples cs) in
    let same : samples cs ++ [] ≡ samples cs = append-nil (samples cs) in
    rw z (
      l,
      m,
      h,
      cs,
      ground (arith, w.len),
      v,
      sym same,
      w,
      refl,
      refl,
      refl,
      rw (append-nil cs) (Keeps-refl h cs),
    )
list_mount_rear-Mounted h l m cs (d ∷ ds) v w dis fits small =
    let joined = samples-append cs (d ∷ ds) in
    let lengths : length (samples cs ++ samples (d ∷ ds)) ≡ length (cs ++ d ∷ ds) =
      ap length (sym joined) ∙ length-samples (cs ++ d ∷ ds) in
    rw (lengths, ← joined) (mount_cells h l m cs d ds v w dis small)

-- Where two well-formed lists share no node, the first is within its limit and their lengths add up
-- to less than 2^32, list_mount_rear touches no invalid pointer, puts the samples of the second
-- behind those of the first, empties the second, and drops and frees the oldest samples beyond the
-- limit of the first, returning -1 if there are any; the loop ends.
pub list_mount_rear-Mounts :
    (h : Heap) (l m : SimpleList) (cs ds : Cells)
    → IsList h l cs
    → IsList h m ds
    → Disjoint cs ds
    → length cs ≤ l.uplimit
    → length cs + length ds < 2 ^ 32
    → let n = excess l.uplimit (samples cs) (samples ds) in
      Mounts h l m
        (code_after n (pos 0))
        (drop n (samples cs ++ samples ds))
        (freeing n (samples cs ++ samples ds) h.freed)
list_mount_rear-Mounts h l m cs ds v w dis fits small =
    let (l', m', h', cs', e, v', s, w', up, _, freed, _) =
      list_mount_rear-Mounted h l m cs ds v w dis fits small in
    (l', m', h', e, (cs', v', s), ([], w', refl), up, freed)
