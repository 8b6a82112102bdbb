-- ===== src/SimpleList/Frame.antt =====
-- What an operation of one list leaves alone: the nodes that are not its own.
use smi240_android_hal.Prelude.{ℕ, ◌≤◌, ◌<◌, ◌≡◌, refl, sym, ◌∙◌, Option, [], ◌∷◌, ◌++◌, arith}
use smi240_android_hal.SimpleList.{SimpleList, Heap}
use smi240_android_hal.SimpleList.Chain.{
  Cells, NotIn, NotIn-append, Chain, Below, Below-mono, Disjoint, IsList,
}

-- From `h` to `h'` no node changes that was allocated and is not among `cs`, and none of those comes
-- to be among `cs'`.
pub record Keeps (h : Heap) (cs : Cells) (h' : Heap) (cs' : Cells) : Type 0 where
  pub higher : h.fresh ≤ h'.fresh
  pub same : (a : ℕ) → a < h.fresh → NotIn a cs → h'.cell a ≡ h.cell a
  pub apart : (a : ℕ) → a < h.fresh → NotIn a cs → NotIn a cs'

pub Keeps-refl : (h : Heap) (cs : Cells) → Keeps h cs h cs
Keeps-refl h cs = record { higher = omega arith; same = λ a b n. refl; apart = λ a b n. n }

pub Keeps-nil : (h : Heap) (cs : Cells) → Keeps h cs h []
Keeps-nil h cs = record { higher = omega arith; same = λ a b n. refl; apart = λ a b n. tt }

pub Keeps-trans :
    (h h' h'' : Heap) (cs cs' cs'' : Cells)
    → Keeps h cs h' cs'
    → Keeps h' cs' h'' cs''
    → Keeps h cs h'' cs''
Keeps-trans h h' h'' cs cs' cs'' k m = record {
  higher = omega (arith, k.higher, m.higher);
  same = λ a b n. m.same a (omega (arith, k.higher)) (k.apart a b n) ∙ k.same a b n;
  apart = λ a b n. m.apart a (omega (arith, k.higher)) (k.apart a b n);
}

pub NotIn-left : (a : ℕ) (cs ds : Cells) → NotIn a (cs ++ ds) → NotIn a cs
NotIn-left a [] ds n = tt
NotIn-left a (c ∷ cs) ds n = (n.0, NotIn-left a cs ds n.1)

pub NotIn-right : (a : ℕ) (cs ds : Cells) → NotIn a (cs ++ ds) → NotIn a ds
NotIn-right a [] ds n = n
NotIn-right a (c ∷ cs) ds n = NotIn-right a cs ds n.1

pub Disjoint-nil : (ds : Cells) → Disjoint ds []
Disjoint-nil [] = tt
Disjoint-nil (d ∷ ds) = (tt, Disjoint-nil ds)

Disjoint-cons : (c : ℕ × ℕ) (cs ds : Cells) → NotIn c.0 ds → Disjoint ds cs → Disjoint ds (c ∷ cs)
Disjoint-cons c cs [] n d = tt
Disjoint-cons c cs (b ∷ ds) n d = ((λ e. n.0 (sym e), d.0), Disjoint-cons c cs ds n.1 d.1)

pub Disjoint-sym : (cs ds : Cells) → Disjoint cs ds → Disjoint ds cs
Disjoint-sym [] ds d = Disjoint-nil ds
Disjoint-sym (c ∷ cs) ds d = Disjoint-cons c cs ds d.0 (Disjoint-sym cs ds d.1)

pub Disjoint-append : (ds cs es : Cells) → Disjoint ds cs → Disjoint ds es → Disjoint ds (cs ++ es)
Disjoint-append [] cs es d e = tt
Disjoint-append (b ∷ ds) cs es d e =
    (NotIn-append b.0 cs es d.0 e.0, Disjoint-append ds cs es d.1 e.1)

module _ (h h' : Heap) (cs cs' : Cells) (k : Keeps h cs h' cs') where
  kept-Chain :
      (p : Option ℕ) (ds : Cells)
      → Below h.fresh ds
      → Disjoint ds cs
      → Chain h.cell p ds
      → Chain h'.cell p ds
  kept-Chain p [] b d c = c
  kept-Chain p (e ∷ ds) b d (q, (next, g, r), n) =
      (q, (next, k.same e.0 b.0 d.0 ∙ g, kept-Chain next ds b.1 d.1 r), n)

  pub kept-Disjoint : (ds : Cells) → Below h.fresh ds → Disjoint ds cs → Disjoint ds cs'
  kept-Disjoint [] b d = tt
  kept-Disjoint (e ∷ ds) b d = (k.apart e.0 b.0 d.0, kept-Disjoint ds b.1 d.1)

  -- A list of other nodes stays well formed.
  pub kept-IsList : (m : SimpleList) (ds : Cells) → Disjoint ds cs → IsList h m ds → IsList h' m ds
  kept-IsList m ds d v = record {
    chain = kept-Chain m.head ds v.below d v.chain;
    below = Below-mono h.fresh h'.fresh ds k.higher v.below;
    tail_fits = v.tail_fits;
    len = v.len;
  }
