-- ===== src/SimpleList/Ops.antt =====
-- list_get_headdata and list_add_rear keep the list well formed, and are the operations of a bounded
-- queue of samples that drops its oldest entry when it is full.
use smi240_android_hal.Prelude.{
  ℕ, ◌+◌, ◌-◌, ◌^◌, ◌<◌, ◌≡◌, ◌≢◌, refl, ap, sym, Option, none, some, [], ◌∷◌, ◌++◌, arith, length,
  length-append,
}
use smi240_android_hal.SimpleList.{
  SimpleList, Heap, update, list_get_headdata, drop_oldest, link_node, ◌>>=◌,
}
use smi240_android_hal.SimpleList.Frame.{Keeps}
use smi240_android_hal.SimpleList.Chain.{
  Cells, IsList, TailFits, NotIn, NotIn-last, Disjoint, last_of, Below-append, update-Chain,
  link-Chain,
}

abbrev pub popped : Heap → SimpleList → ℕ × ℕ → Option ℕ → SimpleList × Heap
popped h l c q =
    (record l { head = q; list_len = l.list_len - 1 }, record h { cell = update h.cell c.0 none })

TailFits-tail : (t : Option ℕ) (c : ℕ × ℕ) (cs : Cells) → TailFits t (c ∷ cs) → TailFits t cs
TailFits-tail t c [] h = tt
TailFits-tail t c (d ∷ cs) h = h

-- The oldest sample comes off a list that is not empty.
pub list_get_headdata_cons :
    (h : Heap) (l : SimpleList) (c : ℕ × ℕ) (cs : Cells)
    → IsList h l (c ∷ cs)
    → (q : Option ℕ) × (list_get_headdata l h
        ≡ some (((popped h l c q).0, some c.1), (popped h l c q).1))
      × IsList (popped h l c q).1 (popped h l c q).0 cs
unfolding list_get_headdata
list_get_headdata_cons h l c cs v =
    let (e, (q, g, r), m) = v.chain in
    (
      q,
      ground arith,
      record {
        chain = update-Chain h.cell q cs c.0 none m r;
        below = v.below.1;
        tail_fits = TailFits-tail l.tail c cs v.tail_fits;
        len = omega (arith, v.len);
      },
    )

pub popped-Keeps :
    (h : Heap) (l : SimpleList) (c : ℕ × ℕ) (cs : Cells) (q : Option ℕ)
    → Keeps h (c ∷ cs) (popped h l c q).1 cs
popped-Keeps h l c cs q = record {
  higher = omega arith;
  same = λ a b n. ground (arith, n.0);
  apart = λ a b n. n.1;
}

-- The same, with the sample freed.
pub drop_oldest_cons :
    (h : Heap) (l : SimpleList) (c : ℕ × ℕ) (cs : Cells)
    → IsList h l (c ∷ cs)
    → (l' : SimpleList) × (h' : Heap) × (drop_oldest l h ≡ some (l', h'))
      × IsList h' l' cs
      × (l'.uplimit ≡ l.uplimit)
      × (h'.freed ≡ c.1 ∷ h.freed)
      × (h'.fresh ≡ h.fresh)
      × Keeps h (c ∷ cs) h' cs
unfolding drop_oldest
drop_oldest_cons h l c cs v =
    let (q, e, w) = list_get_headdata_cons h l c cs v in
    (
      (popped h l c q).0,
      record (popped h l c q).1 { freed = c.1 ∷ h.freed },
      rw (e, ◌>>=◌) refl,
      record { chain = w.chain; below = w.below; tail_fits = w.tail_fits; len = w.len },
      refl,
      refl,
      refl,
      (let k = popped-Keeps h l c cs q in
          record { higher = k.higher; same = k.same; apart = k.apart }),
    )

pub TailFits-append : (c b : ℕ × ℕ) (cs ds : Cells) → last_of c.0 (cs ++ b ∷ ds) ≡ last_of b.0 ds
TailFits-append c b [] ds = refl
TailFits-append c b (d ∷ cs) ds = TailFits-append d b cs ds

pub Disjoint-single : (a d : ℕ) (cs : Cells) → NotIn a cs → Disjoint cs ((a, d) ∷ [])
Disjoint-single a d [] n = tt
Disjoint-single a d (c ∷ cs) n = ((λ e. n.0 (sym e), tt), Disjoint-single a d cs n.1)

length_snoc : (cs : Cells) (b : ℕ × ℕ) → length (cs ++ b ∷ []) ≡ length cs + 1
length_snoc cs b = omega (arith, length-append cs (b ∷ []))

-- A node that is not in the list becomes its last.
pub link_node_lem :
    (nod d : ℕ) (h : Heap) (l : SimpleList) (cs : Cells)
    → IsList h l cs
    → NotIn nod cs
    → nod < h.fresh
    → length cs + 1 < 2 ^ 32
    → (l' : SimpleList) × (h' : Heap) × (link_node nod d l h ≡ some (l', h'))
      × IsList h' l' (cs ++ (nod, d) ∷ [])
      × (l'.uplimit ≡ l.uplimit)
      × (h'.freed ≡ h.freed)
      × (h'.fresh ≡ h.fresh)
      × ((a : ℕ) → a ≢ nod → NotIn a cs → h'.cell a ≡ h.cell a)
unfolding link_node
link_node_lem nod d h l [] v n below small = (
  record l { head = some nod; tail = some nod; list_len = 1 },
  record h { cell = update h.cell nod (some (record { next = none; p_data = d })) },
  ground (arith, v.chain, v.len),
  record {
    chain = (refl, (none, ground arith, refl), tt);
    below = (below, tt);
    tail_fits = refl;
    len = refl;
  },
  refl,
  refl,
  refl,
  λ a ne n'. ground (arith, ne),
)
link_node_lem nod d h l (c ∷ cs) v n below small =
    let f = update h.cell nod (some (record { next = none; p_data = d })) in
    let (t, ft, joined) =
      link-Chain f l.head (some nod) c cs ((nod, d) ∷ [])
        (update-Chain h.cell l.head (c ∷ cs) nod _ n v.chain) (refl, (none, ground arith, refl), tt)
        (Disjoint-single nod d (c ∷ cs) n) in
    (
      record l { tail = some nod; list_len = l.list_len + 1 },
      record h { cell = update f (last_of c.0 cs) (some (record t { next = some nod })) },
      ground (arith, v.chain.0, v.tail_fits, ft, v.len),
      record {
        chain = joined;
        below = Below-append h.fresh (c ∷ cs) ((nod, d) ∷ []) v.below (below, tt);
        tail_fits = ap some (sym (TailFits-append c (nod, d) cs []));
        len = omega (arith, v.len, length_snoc (c ∷ cs) (nod, d));
      },
      refl,
      refl,
      refl,
      λ a ne n'. ground (arith, ne, NotIn-last a c.0 cs n'.0 n'.1),
    )
