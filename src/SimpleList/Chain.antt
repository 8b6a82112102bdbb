-- ===== src/SimpleList/Chain.antt =====
-- Which nodes a list is made of, and how writes to the heap change that.
use smi240_android_hal.Prelude.{
  ℕ, ◌≤◌, ◌<◌, ◌≡◌, ◌≢◌, Option, none, some, List, [], ◌∷◌, ◌++◌, arith, length,
}
use smi240_android_hal.SimpleList.{Node, SimpleList, Heap, update}

-- The address of each node in the list, with its sample.
abbrev pub Cells : Type 0
Cells = List (ℕ × ℕ)

abbrev pub NotIn : ℕ → Cells → Type 0
NotIn a [] = Unit {0}
NotIn a (c ∷ cs) = (a ≢ c.0) × NotIn a cs

-- The nodes from the pointer `p` to NULL are `cs`, each at an address of its own.
abbrev pub Chain : (ℕ → Option Node) → Option ℕ → Cells → Type 0
Chain f p [] = p ≡ none
Chain f p (c ∷ cs) =
    (p ≡ some c.0)
    × ((q : Option ℕ) × (f c.0 ≡ some (record { next = q; p_data = c.1 })) × Chain f q cs)
    × NotIn c.0 cs

abbrev pub Below : ℕ → Cells → Type 0
Below n [] = Unit {0}
Below n (c ∷ cs) = (c.0 < n) × Below n cs

abbrev pub Disjoint : Cells → Cells → Type 0
Disjoint [] ds = Unit {0}
Disjoint (c ∷ cs) ds = NotIn c.0 ds × Disjoint cs ds

-- The address of the last node.
abbrev pub last_of : ℕ → Cells → ℕ
last_of a [] = a
last_of a (c ∷ cs) = last_of c.0 cs

-- `tail` may be stale where the list is empty.
abbrev pub TailFits : Option ℕ → Cells → Type 0
TailFits t [] = Unit {0}
TailFits t (c ∷ cs) = t ≡ some (last_of c.0 cs)

pub record IsList (h : Heap) (l : SimpleList) (cs : Cells) : Type 0 where
  pub chain : Chain h.cell l.head cs
  pub below : Below h.fresh cs
  pub tail_fits : TailFits l.tail cs
  pub len : l.list_len ≡ length cs

pub Below-mono : (m n : ℕ) (cs : Cells) → m ≤ n → Below m cs → Below n cs
Below-mono m n [] h b = tt
Below-mono m n (c ∷ cs) h b = (omega arith, Below-mono m n cs h b.1)

pub Below-append : (n : ℕ) (cs ds : Cells) → Below n cs → Below n ds → Below n (cs ++ ds)
Below-append n [] ds b d = d
Below-append n (c ∷ cs) ds b d = (b.0, Below-append n cs ds b.1 d)

pub NotIn-of_Below : (a : ℕ) (cs : Cells) → Below a cs → NotIn a cs
NotIn-of_Below a [] b = tt
NotIn-of_Below a (c ∷ cs) b = (omega arith, NotIn-of_Below a cs b.1)

pub NotIn-append : (a : ℕ) (cs ds : Cells) → NotIn a cs → NotIn a ds → NotIn a (cs ++ ds)
NotIn-append a [] ds n m = m
NotIn-append a (c ∷ cs) ds n m = (n.0, NotIn-append a cs ds n.1 m)

-- A write outside the list leaves it.
pub update-Chain :
    (f : ℕ → Option Node) (p : Option ℕ) (cs : Cells) (a : ℕ) (v : Option Node)
    → NotIn a cs
    → Chain f p cs
    → Chain (update f a v) p cs
update-Chain f p [] a v n c = c
update-Chain f p (d ∷ cs) a v n (e, (q, g, r), m) =
    (e, (q, ground (arith, g, n.0), update-Chain f q cs a v n.1 r), m)

pub NotIn-last : (a b : ℕ) (cs : Cells) → a ≢ b → NotIn a cs → a ≢ last_of b cs
NotIn-last a b [] h n = h
NotIn-last a b (c ∷ cs) h n = NotIn-last a c.0 cs n.0 n.1

-- `tail->next = q` joins a list to the list at `q`.
pub link-Chain :
    (f : ℕ → Option Node) (p q : Option ℕ) (c : ℕ × ℕ) (cs ds : Cells)
    → Chain f p (c ∷ cs)
    → Chain f q ds
    → Disjoint (c ∷ cs) ds
    → (n : Node) × (f (last_of c.0 cs) ≡ some n)
      × Chain (update f (last_of c.0 cs) (some (record n { next = q }))) p ((c ∷ cs) ++ ds)
link-Chain f p q c [] ds (e, (r, g, z), m) k dis = (
  record { next = r; p_data = c.1 },
  g,
  (e, (q, ground arith, update-Chain f q ds c.0 _ dis.0 k), dis.0),
)
link-Chain f p q c (b ∷ cs) ds (e, (r, g, z), m) k dis =
    let (n, fn, rest) = link-Chain f r q b cs ds z k dis.1 in
    (
      n,
      fn,
      (
        e,
        (r, ground (arith, g, NotIn-last c.0 b.0 cs m.0 m.1), rest),
        NotIn-append c.0 (b ∷ cs) ds m dis.0,
      ),
    )
