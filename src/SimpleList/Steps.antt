-- ===== src/SimpleList/Steps.antt =====
-- Each operation of a list gives what the contract gives, and leaves the nodes of other lists alone.
use smi240_android_hal.Prelude.{
  ℕ, suc, ◌-◌, ◌^◌, ◌≤◌, ◌<◌, ◌≡◌, refl, ap, ◌∙◌, sym, Bool, true, false, some, List, [], ◌∷◌, ◌++◌,
  arith, length, drop, ◌==◌, Bool-cases, inl, inr, length-append, length-drop,
}
use smi240_android_hal.Prelude.Int.{ℤ, pos, negsuc}
use smi240_android_hal.SimpleList.{
  SimpleList, Heap, list_add_rear, list_get_headdata, list_mount_rear,
}
use smi240_android_hal.SimpleList.Chain.{Cells, IsList, Disjoint}
use smi240_android_hal.SimpleList.Frame.{Keeps, Keeps-refl}
use smi240_android_hal.SimpleList.Ops.{list_get_headdata_cons, popped, popped-Keeps}
use smi240_android_hal.SimpleList.Queue.{Added, first, samples, add_cases, length-samples}
use smi240_android_hal.SimpleList.Fifo.{Fifo, add_rear, get_headdata, mount_rear}
use smi240_android_hal.SimpleList.Handover.{held, list_mount_rear-hands_over}

-- Within a limit that is positive, and that two lists can reach together.
pub record IsBounded (l : SimpleList) (cs : Cells) : Type 0 where
  pub fits : length cs ≤ l.uplimit
  pub positive : 0 < l.uplimit
  pub small : l.uplimit < 2 ^ 31

-- The list is left as `l'` with the nodes `cs'`, which hold what `q` does.
pub record Becomes (h : Heap) (old : Cells) (h' : Heap) (l' : SimpleList) (cs' : Cells) (q : Fifo ℕ)
    : Type 0 where
  pub formed : IsList h' l' cs'
  pub bounded : IsBounded l' cs'
  pub holds : held l' cs' ≡ q
  pub keeps : Keeps h old h' cs'

held-eq :
    (l : SimpleList) (cs : Cells) (xs : List ℕ) (n : ℕ)
    → samples cs ≡ xs
    → l.uplimit ≡ n
    → held l cs ≡ record { items = xs; uplimit = n }
held-eq l cs xs n s u = λ i. record { items = s i; uplimit = u i }

length-held : (cs : Cells) (xs : List ℕ) → samples cs ≡ xs → length cs ≡ length xs
length-held cs xs e = sym (length-samples cs) ∙ ap length e

abbrev AddsAs : Heap → SimpleList → Cells → ℕ → Fifo ℕ × ℤ → Type 0
AddsAs h l cs d e =
    (l' : SimpleList) × (h' : Heap) × (cs' : Cells) × (list_add_rear true d l h
      ≡ some ((l', e.1), h'))
    × Becomes h cs h' l' cs' e.0

add-Becomes :
    (h : Heap) (l : SimpleList) (cs : Cells) (d : ℕ) (code : ℤ) (ys freed : List ℕ)
    → IsBounded l cs
    → length ys ≤ l.uplimit
    → Added h l cs d code ys freed
    → AddsAs h l cs d (record { items = ys; uplimit = l.uplimit }, code)
add-Becomes h l cs d code ys freed b fits (l', h', cs', e, w, s, up, _, k) = (
  l',
  h',
  cs',
  e,
  record {
    formed = w;
    bounded = record {
      fits = omega (arith, up, length-held cs' ys s, fits);
      positive = omega (arith, up, b.positive);
      small = omega (arith, up, b.small);
    };
    holds = held-eq l' cs' ys l.uplimit s up;
    keeps = k;
  },
)

add_true :
    (d : ℕ) (h : Heap) (l : SimpleList) (cs : Cells)
    → IsList h l cs
    → IsBounded l cs
    → AddsAs h l cs d (add_rear true d (held l cs))
unfolding add_rear
add_true d h l cs v b =
    let added = add_cases h l d cs v b.positive b.fits (omega (arith, b.small)) in
    elim (Bool-cases (length (samples cs) == l.uplimit)) [
      | inl full ↦
          let fits : length (drop 1 (samples cs) ++ d ∷ []) ≤ l.uplimit = ground (
            arith,
            length-append (drop 1 (samples cs)) (d ∷ []),
            length-drop 1 (samples cs),
            length-samples cs,
            b.fits,
            b.positive,
          ) in
          rw full (add-Becomes h l cs d (negsuc 1) _ (first (samples cs)) b fits (rw full at added))
      | inr room ↦
          let fits : length (samples cs ++ d ∷ []) ≤ l.uplimit =
            ground (arith, length-append (samples cs) (d ∷ []), length-samples cs, b.fits) in
          rw room (add-Becomes h l cs d (pos 0) _ [] b fits (rw room at added))
    ]

-- list_add_rear, by whether malloc succeeds.
pub add_step :
    (ok : Bool) (d : ℕ) (h : Heap) (l : SimpleList) (cs : Cells)
    → IsList h l cs
    → IsBounded l cs
    → let e = add_rear ok d (held l cs) in
      (l' : SimpleList) × (h' : Heap) × (cs' : Cells) × (list_add_rear ok d l h
        ≡ some ((l', e.1), h'))
      × Becomes h cs h' l' cs' e.0
unfolding add_rear list_add_rear
add_step false d h l cs v b =
    (l, h, cs, refl, record { formed = v; bounded = b; holds = refl; keeps = Keeps-refl h cs })
add_step true d h l cs v b = add_true d h l cs v b

-- list_get_headdata.
pub get_step :
    (h : Heap) (l : SimpleList) (cs : Cells)
    → IsList h l cs
    → IsBounded l cs
    → let e = get_headdata (held l cs) in
      (l' : SimpleList) × (h' : Heap) × (cs' : Cells) × (list_get_headdata l h
        ≡ some ((l', e.1), h'))
      × Becomes h cs h' l' cs' e.0
unfolding get_headdata list_get_headdata
get_step h l [] v b = (
  l,
  h,
  [],
  rw v.len refl,
  record { formed = v; bounded = b; holds = refl; keeps = Keeps-refl h [] },
)
get_step h l (c ∷ cs) v b =
    let (q, e, w) = list_get_headdata_cons h l c cs v in
    (
      (popped h l c q).0,
      (popped h l c q).1,
      cs,
      e,
      record {
        formed = w;
        bounded = record { fits = omega (arith, b.fits); positive = b.positive; small = b.small };
        holds = refl;
        keeps = popped-Keeps h l c cs q;
      },
    )

-- What the contract leaves of the two queues.
mount_rear-held :
    (xs ys : List ℕ) (a b : ℕ)
    → length xs ≤ a
    → let e =
        mount_rear (record { items = xs; uplimit = a }) (record { items = ys; uplimit = b }) in
      (e.0.uplimit ≡ a) × (length e.0.items ≤ a) × (e.1 ≡ record { items = []; uplimit = b })
unfolding mount_rear
mount_rear-held xs [] a b fits = (refl, fits, refl)
mount_rear-held xs (y ∷ ys) a b fits =
    let nonempty : (suc (length ys) == 0) ≡ false = ground arith in
    let short : length (drop (length (xs ++ y ∷ ys) - a) (xs ++ y ∷ ys)) ≤ a =
      omega (arith, length-drop (length (xs ++ y ∷ ys) - a) (xs ++ y ∷ ys)) in
    rw nonempty (refl, short, refl)

-- list_mount_rear, for lists without a common node.
pub mount_step :
    (h : Heap) (l m : SimpleList) (cs ds : Cells)
    → IsList h l cs
    → IsList h m ds
    → Disjoint cs ds
    → IsBounded l cs
    → IsBounded m ds
    → let e = mount_rear (held l cs) (held m ds) in
      (l' : SimpleList) × (m' : SimpleList) × (h' : Heap) × (cs' : Cells) × (list_mount_rear l m h
        ≡ some ((l', m', e.2), h'))
      × Becomes h (cs ++ ds) h' l' cs' e.0
      × IsList h m' []
      × IsBounded m' []
      × (held m' [] ≡ e.1)
mount_step h l m cs ds v w dis b c =
    let (l', m', h', cs', e, v', s, w', up, up', _, k) =
      list_mount_rear-hands_over h l m cs ds v w dis b.fits
        (omega (arith, b.small, c.small, b.fits, c.fits)) in
    let (limit, short, none_left) =
      mount_rear-held (samples cs) (samples ds) l.uplimit m.uplimit
        (omega (arith, length-samples cs, b.fits)) in
    (
      l',
      m',
      h',
      cs',
      e,
      record {
        formed = v';
        bounded = record {
          fits = omega (arith, short, length-held cs' _ s, up);
          positive = omega (arith, up, b.positive);
          small = omega (arith, up, b.small);
        };
        holds = held-eq l' cs' _ _ s (up ∙ sym limit);
        keeps = k;
      },
      record { chain = w'.chain; below = tt; tail_fits = tt; len = w'.len },
      record {
        fits = omega arith;
        positive = omega (arith, up', c.positive);
        small = omega (arith, up', c.small);
      },
      held-eq m' [] [] m.uplimit refl up' ∙ sym none_left,
    )
