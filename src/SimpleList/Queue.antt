-- ===== src/SimpleList/Queue.antt =====
-- The abstract view of the list: the samples that it holds, oldest first.
use smi240_android_hal.Prelude.{
  ℕ, suc, ◌+◌, ◌^◌, ◌≤◌, ◌<◌, ◌≡◌, ◌≢◌, refl, ap, ◌∙◌, inl, inr, true, false, none, some, List, [],
  ◌∷◌, ◌++◌, arith, length, drop, ◌==◌, if◌then◌else◌, Bool-cases,
}
use smi240_android_hal.Prelude.Int.{ℤ, pos, negsuc}
use smi240_android_hal.SimpleList.{
  SimpleList, Heap, update, list_get_headdata, list_add_rear, ◌>>=◌,
}
use smi240_android_hal.SimpleList.Chain.{
  Cells, IsList, NotIn, NotIn-append, Below-mono, NotIn-of_Below, update-Chain,
}
use smi240_android_hal.SimpleList.Frame.{Keeps, Keeps-trans}
use smi240_android_hal.SimpleList.Ops.{
  list_get_headdata_cons, drop_oldest_cons, link_node_lem, popped,
}

abbrev pub samples : Cells → List ℕ
samples [] = []
samples (c ∷ cs) = c.1 ∷ samples cs

-- The list at `l` is well formed and holds the samples `xs`.
abbrev pub Represents : Heap → SimpleList → List ℕ → Type 0
Represents h l xs = (cs : Cells) × IsList h l cs × (samples cs ≡ xs)

pub length-samples : (cs : Cells) → length (samples cs) ≡ length cs
length-samples [] = refl
length-samples (c ∷ cs) = ap suc (length-samples cs)

pub samples-append : (cs ds : Cells) → samples (cs ++ ds) ≡ samples cs ++ samples ds
samples-append [] ds = refl
samples-append (c ∷ cs) ds = ap (◌∷◌ c.1) (samples-append cs ds)

-- A queue that holds at most `limit` samples.
abbrev pub enqueue : ℕ → ℕ → List ℕ → List ℕ
enqueue limit d xs = if length xs == limit then drop 1 xs ++ d ∷ [] else xs ++ d ∷ []

-- The sample that an addition to a full queue frees.
abbrev pub first : List ℕ → List ℕ
first [] = []
first (x ∷ xs) = x ∷ []

malloc-Keeps :
    (h : Heap) (cs : Cells)
    → Keeps h cs
        (record h {
          fresh = h.fresh + 1;
          cell = update h.cell h.fresh (some (record { next = none; p_data = 0 }));
        })
        cs
malloc-Keeps h cs = record {
  higher = omega arith;
  same = λ a b n. ground (arith);
  apart = λ a b n. n;
}

malloc-IsList :
    (h : Heap) (l : SimpleList) (cs : Cells)
    → IsList h l cs
    → IsList
        (record h {
          fresh = h.fresh + 1;
          cell = update h.cell h.fresh (some (record { next = none; p_data = 0 }));
        })
        l
        cs
malloc-IsList h l cs v = record {
  chain = update-Chain h.cell l.head cs h.fresh _ (NotIn-of_Below h.fresh cs v.below) v.chain;
  below = Below-mono h.fresh (h.fresh + 1) cs (omega arith) v.below;
  tail_fits = v.tail_fits;
  len = v.len;
}

-- The result of list_add_rear: the code that it returns, the samples of the list after it, and the
-- samples that it freed.
abbrev pub Adds : Heap → SimpleList → ℕ → ℤ → List ℕ → List ℕ → Type 0
Adds h l d code ys freed =
    (l' : SimpleList) × (h' : Heap) × (list_add_rear true d l h ≡ some ((l', code), h'))
    × Represents h' l' ys
    × (l'.uplimit ≡ l.uplimit)
    × (h'.freed ≡ freed ++ h.freed)

-- The same for the list with the nodes `cs`, of which other lists see nothing.
abbrev pub Added : Heap → SimpleList → Cells → ℕ → ℤ → List ℕ → List ℕ → Type 0
Added h l cs d code ys freed =
    (l' : SimpleList) × (h' : Heap) × (cs' : Cells) × (list_add_rear true d l h
      ≡ some ((l', code), h'))
    × IsList h' l' cs'
    × (samples cs' ≡ ys)
    × (l'.uplimit ≡ l.uplimit)
    × (h'.freed ≡ freed ++ h.freed)
    × Keeps h cs h' cs'

-- The node that malloc gives is linked behind the others.
linked-Keeps :
    (h h₁ h' : Heap) (cs cs₁ : Cells) (d : ℕ)
    → Keeps h cs h₁ cs₁
    → h₁.fresh ≤ h'.fresh
    → ((a : ℕ) → a ≢ h.fresh → NotIn a cs₁ → h'.cell a ≡ h₁.cell a)
    → Keeps h cs h' (cs₁ ++ (h.fresh, d) ∷ [])
linked-Keeps h h₁ h' cs cs₁ d k up same = record {
  higher = omega (arith, k.higher, up);
  same = λ a b n. same a (λ e. omega arith) (k.apart a b n) ∙ k.same a b n;
  apart = λ a b n. NotIn-append a cs₁ ((h.fresh, d) ∷ []) (k.apart a b n) ((λ e. omega arith), tt);
}

add_to_room :
    (h : Heap) (l : SimpleList) (d : ℕ) (cs : Cells)
    → IsList h l cs
    → (l.list_len == l.uplimit) ≡ false
    → length cs + 1 < 2 ^ 32
    → Added h l cs d (pos 0) (samples cs ++ d ∷ []) []
unfolding list_add_rear
add_to_room h l d cs v room small =
    let (l', h', e, w, up, freed, fresh', same) =
      link_node_lem h.fresh d _ l cs (malloc-IsList h l cs v) (NotIn-of_Below h.fresh cs v.below)
        (omega arith) small in
    (
      l',
      h',
      cs ++ (h.fresh, d) ∷ [],
      rw (room, e, ◌>>=◌) refl,
      w,
      samples-append cs _,
      up,
      freed,
      linked-Keeps h _ h' cs cs d (malloc-Keeps h cs) (omega (arith, fresh')) same,
    )

add_to_full :
    (h : Heap) (l : SimpleList) (d : ℕ) (c : ℕ × ℕ) (cs : Cells)
    → IsList h l (c ∷ cs)
    → (l.list_len == l.uplimit) ≡ true
    → length cs + 1 < 2 ^ 32
    → Added h l (c ∷ cs) d (negsuc 1) (samples cs ++ d ∷ []) (c.1 ∷ [])
unfolding list_add_rear
add_to_full h l d c cs v full small =
    let (l₁, h₁, e₁, w₁, up₁, freed₁, fresh₁, k₁) =
      drop_oldest_cons _ l c cs (malloc-IsList h l (c ∷ cs) v) in
    let (l', h', e, w, up, freed, fresh', same) =
      link_node_lem h.fresh d h₁ l₁ cs w₁ (NotIn-of_Below h.fresh (c ∷ cs) v.below).1
        (omega (arith, fresh₁)) small in
    (
      l',
      h',
      cs ++ (h.fresh, d) ∷ [],
      rw (full, e₁, ◌>>=◌) (rw (e, ◌>>=◌) refl),
      w,
      samples-append cs _,
      up ∙ up₁,
      freed ∙ freed₁,
      linked-Keeps h h₁ h' (c ∷ cs) cs d
          (Keeps-trans h _ h₁ (c ∷ cs) (c ∷ cs) cs (malloc-Keeps h (c ∷ cs)) k₁)
          (omega (arith, fresh')) same,
    )

pub add_cases :
    (h : Heap) (l : SimpleList) (d : ℕ) (cs : Cells)
    → IsList h l cs
    → 0 < l.uplimit
    → length cs ≤ l.uplimit
    → l.uplimit < 2 ^ 32
    → Added h l cs d
        (if length (samples cs) == l.uplimit then negsuc 1 else pos 0)
        (enqueue l.uplimit d (samples cs))
        (if length (samples cs) == l.uplimit then first (samples cs) else [])
add_cases h l d [] v pos_limit fits small =
    let e : (0 == l.uplimit) ≡ false = ground arith in
    rw e (add_to_room h l d [] v (ground (arith, v.len)) (omega arith))
add_cases h l d (c ∷ cs) v pos_limit fits small = elim (Bool-cases (l.list_len == l.uplimit)) [
  | inl full ↦
      let e : (suc (length (samples cs)) == l.uplimit) ≡ true =
        ground (arith, v.len, length-samples cs) in
      rw e (add_to_full h l d c cs v full (omega arith))
  | inr room ↦
      let e : (suc (length (samples cs)) == l.uplimit) ≡ false =
        ground (arith, v.len, length-samples cs) in
      rw e (add_to_room h l d (c ∷ cs) v room (ground (arith, v.len)))
]

-- Where malloc succeeds and the list is well formed, within its limit, and the limit is positive and
-- below 2^32, list_add_rear touches no invalid pointer, gives a well-formed list with the new sample
-- behind the others, and, if the list was full, drops and frees the oldest one and returns -2.
pub list_add_rear_enqueues :
    (h : Heap) (l : SimpleList) (d : ℕ) (xs : List ℕ)
    → Represents h l xs
    → 0 < l.uplimit
    → length xs ≤ l.uplimit
    → l.uplimit < 2 ^ 32
    → Adds h l d
        (if length xs == l.uplimit then negsuc 1 else pos 0)
        (enqueue l.uplimit d xs)
        (if length xs == l.uplimit then first xs else [])
list_add_rear_enqueues h l d xs (cs, v, e) p fits small =
    let (l', h', cs', r, w, s, up, freed, _) =
      add_cases h l d cs v p (omega (arith, length-samples cs, ap length e)) small in
    rw (← e) (l', h', r, (cs', w, s), up, freed)

-- From a well-formed list that holds a sample, list_get_headdata takes the oldest one and leaves the
-- others in a well-formed list.
pub list_get_headdata_oldest :
    (h : Heap) (l : SimpleList) (x : ℕ) (xs : List ℕ)
    → Represents h l (x ∷ xs)
    → (l' : SimpleList) × (h' : Heap) × (list_get_headdata l h ≡ some ((l', some x), h'))
      × Represents h' l' xs
      × (l'.uplimit ≡ l.uplimit)
list_get_headdata_oldest h l x xs ([], v, e) = absurd (cc)
list_get_headdata_oldest h l x xs (c ∷ cs, v, e) =
    let (q, r, w) = list_get_headdata_cons h l c cs v in
    (
      (popped h l c q).0,
      (popped h l c q).1,
      rw r (ground (arith, e)),
      (cs, w, ground (arith, e)),
      refl,
    )
