-- ===== src/SimpleList/Runs.antt =====
-- Any sequence of additions and removals behaves as its contract says.
use smi240_android_hal.Prelude.{
  ℕ, ◌^◌, ◌≤◌, ◌<◌, ◌≡◌, refl, Bool, true, false, Option, some, List, [], ◌∷◌, ◌++◌, arith, length,
  drop, ◌==◌, length-append, length-drop, Bool-cases, inl, inr, ◌∙◌,
}
use smi240_android_hal.Prelude.Int.{ℤ, pos, negsuc}
use smi240_android_hal.SimpleList.{
  SimpleList, Heap, list_add_rear, list_get_headdata, Exec, pure, ◌>>=◌,
}
use smi240_android_hal.SimpleList.Queue.{
  Represents, list_add_rear_enqueues, list_get_headdata_oldest,
}
use smi240_android_hal.SimpleList.Fifo.{Fifo, add_rear, get_headdata}

-- A call of the list with its arguments; the Boolean says whether malloc succeeds.
pub data Call : Type 0 where
  add : Bool → ℕ → Call
  get : Call

-- What a call gives back.
pub data Answer : Type 0 where
  code : ℤ → Answer
  sample : Option ℕ → Answer

unfoldable pub perform : Call → SimpleList → Exec (SimpleList × Answer)
unfolding list_add_rear list_get_headdata
perform (add ok d) l = list_add_rear ok d l >>= λ r. pure (r.0, code r.1)
perform get l = list_get_headdata l >>= λ r. pure (r.0, sample r.1)

-- The calls one after the other, with their answers.
unfoldable pub perform_all : List Call → SimpleList → Exec (SimpleList × List Answer)
unfolding perform
perform_all [] l = pure (l, [])
perform_all (c ∷ cs) l = perform c l >>= λ r. perform_all cs r.0 >>= λ r'. pure (r'.0, r.1 ∷ r'.1)

-- The same by the contract.
unfoldable pub expect : Call → Fifo ℕ → Fifo ℕ × Answer
unfolding add_rear get_headdata
expect (add ok d) q = let (q', c) = add_rear ok d q in (q', code c)
expect get q = let (q', o) = get_headdata q in (q', sample o)

unfoldable pub expect_all : List Call → Fifo ℕ → Fifo ℕ × List Answer
unfolding expect
expect_all [] q = (q, [])
expect_all (c ∷ cs) q =
    let (q', a) = expect c q in let (q'', rest) = expect_all cs q' in (q'', a ∷ rest)

-- The list at `l` is well formed and holds what `q` does, within the limit.
pub record Refines (h : Heap) (l : SimpleList) (q : Fifo ℕ) : Type 0 where
  pub holds : Represents h l q.items
  pub limit : l.uplimit ≡ q.uplimit
  pub fits : length q.items ≤ q.uplimit
  pub positive : 0 < q.uplimit
  pub small : q.uplimit < 2 ^ 32

abbrev pub Performs : Heap → SimpleList → Call → Fifo ℕ × Answer → Type 0
Performs h l c e =
    (l' : SimpleList) × (h' : Heap) × (perform c l h ≡ some ((l', e.1), h')) × Refines h' l' e.0

add_full :
    (h : Heap) (l : SimpleList) (d : ℕ) (q : Fifo ℕ)
    → Refines h l q
    → (length q.items == q.uplimit) ≡ true
    → Performs h l (add true d) (record q { items = drop 1 q.items ++ d ∷ [] }, code (negsuc 1))
unfolding perform
add_full h l d q v full =
    let full' : (length q.items == l.uplimit) ≡ true = rw v.limit full in
    let (l', h', e, r, up, _) =
      list_add_rear_enqueues h l d q.items v.holds (omega (arith, v.limit)) (omega (arith, v.limit))
        (omega (arith, v.limit)) in
    (
      l',
      h',
      rw (rw full' at e, ◌>>=◌) refl,
      record {
        holds = rw full' at r;
        limit = up ∙ v.limit;
        fits = omega (
          arith,
          length-append (drop 1 q.items) (d ∷ []),
          length-drop 1 q.items,
          v.fits,
          v.positive,
        );
        positive = v.positive;
        small = v.small;
      },
    )

add_room :
    (h : Heap) (l : SimpleList) (d : ℕ) (q : Fifo ℕ)
    → Refines h l q
    → (length q.items == q.uplimit) ≡ false
    → Performs h l (add true d) (record q { items = q.items ++ d ∷ [] }, code (pos 0))
unfolding perform
add_room h l d q v room =
    let room' : (length q.items == l.uplimit) ≡ false = rw v.limit room in
    let (l', h', e, r, up, _) =
      list_add_rear_enqueues h l d q.items v.holds (omega (arith, v.limit)) (omega (arith, v.limit))
        (omega (arith, v.limit)) in
    (
      l',
      h',
      rw (rw room' at e, ◌>>=◌) refl,
      record {
        holds = rw room' at r;
        limit = up ∙ v.limit;
        fits = ground (arith, length-append q.items (d ∷ []), v.fits);
        positive = v.positive;
        small = v.small;
      },
    )

-- A well-formed list without samples has the length 0.
empty_len : (h : Heap) (l : SimpleList) → Represents h l [] → l.list_len ≡ 0
empty_len h l ([], v, e) = v.len
empty_len h l (c ∷ cs, v, e) = absurd (cc)

get_any :
    (h : Heap) (l : SimpleList) (n : ℕ) (xs : List ℕ)
    → Refines h l (record { items = xs; uplimit = n })
    → Performs h l get (expect get (record { items = xs; uplimit = n }))
unfolding perform expect list_get_headdata
get_any h l n [] v = (l, h, rw (empty_len h l v.holds) refl, v)
get_any h l n (x ∷ xs) v =
    let (l', h', e, r, up) = list_get_headdata_oldest h l x xs v.holds in
    (
      l',
      h',
      rw (e, ◌>>=◌) refl,
      record {
        holds = r;
        limit = up ∙ v.limit;
        fits = omega (arith, v.fits);
        positive = v.positive;
        small = v.small;
      },
    )

-- A call of the list gives what the contract gives, and touches no invalid pointer.
perform-expect :
    (h : Heap) (l : SimpleList) (c : Call) (q : Fifo ℕ)
    → Refines h l q
    → Performs h l c (expect c q)
unfolding perform expect list_add_rear
perform-expect h l (add false d) q v = (l, h, refl, v)
perform-expect h l (add true d) q v = elim (Bool-cases (length q.items == q.uplimit)) [
  | inl full ↦ rw (full, add_rear) (add_full h l d q v full)
  | inr room ↦ rw (room, add_rear) (add_room h l d q v room)
]
perform-expect h l get q v = get_any h l q.uplimit q.items v

-- For a well-formed list within its limit, where the limit is positive and below 2^32: whatever calls
-- of list_add_rear, malloc failing or not, and list_get_headdata are made, in whatever order, none
-- touches an invalid pointer, each gives what a bounded queue gives that drops its oldest sample when
-- it is full, and the list is again well formed and holds the samples of that queue.
perform_all-Refines :
    (cs : List Call) (h : Heap) (l : SimpleList) (q : Fifo ℕ)
    → Refines h l q
    → (l' : SimpleList) × (h' : Heap) × (perform_all cs l h ≡ some ((l', (expect_all cs q).1), h'))
      × Refines h' l' (expect_all cs q).0
unfolding perform_all expect_all
perform_all-Refines [] h l q v = (l, h, refl, v)
perform_all-Refines (c ∷ cs) h l q v =
    let (l₁, h₁, e₁, v₁) = perform-expect h l c q v in
    let (l', h', e', v') = perform_all-Refines cs h₁ l₁ (expect c q).0 v₁ in
    (l', h', rw (e₁, ◌>>=◌) (rw (e', ◌>>=◌) refl), v')
