-- ===== src/SimpleList/Truncate.antt =====
-- The oldest samples of a list are dropped: the loop at the end of list_mount_rear, and list_clean.
use smi240_android_hal.Prelude.{
  ℕ, zero, suc, ◌-◌, ◌≤◌, ◌≡◌, refl, ap, ◌∙◌, true, false, Option, some, List, [], ◌∷◌, arith,
  length, drop, ltb, ◌==◌,
}
use smi240_android_hal.Prelude.Int.{ℤ, negsuc}
use smi240_android_hal.SimpleList.{SimpleList, Heap, truncate, list_clean}
use smi240_android_hal.SimpleList.Chain.{Cells, IsList}
use smi240_android_hal.SimpleList.Frame.{Keeps, Keeps-refl, Keeps-trans}
use smi240_android_hal.SimpleList.Ops.{drop_oldest_cons}
use smi240_android_hal.SimpleList.Queue.{samples, Represents}

-- The samples freed, the latest first, after those at the front of `xs` are freed in order.
abbrev pub freeing : ℕ → List ℕ → List ℕ → List ℕ
freeing zero xs done = done
freeing (suc n) [] done = done
freeing (suc n) (x ∷ xs) done = freeing n xs (x ∷ done)

abbrev pub code_after : ℕ → ℤ → ℤ
code_after zero code = code
code_after (suc n) code = negsuc 0

code_after-negsuc : (n : ℕ) → code_after n (negsuc 0) ≡ negsuc 0
code_after-negsuc zero = refl
code_after-negsuc (suc n) = refl

coded : SimpleList → Heap → ℤ → Option ((SimpleList × ℤ) × Heap)
coded l h code = some ((l, code), h)

pub truncate_lem :
    (fuel n : ℕ) (code : ℤ) (h : Heap) (l : SimpleList) (cs : Cells)
    → IsList h l cs
    → length cs - l.uplimit ≡ n
    → n ≤ fuel
    → (l' : SimpleList) × (h' : Heap) × (truncate fuel code l h
        ≡ some ((l', code_after n code), h'))
      × IsList h' l' (drop n cs)
      × (l'.uplimit ≡ l.uplimit)
      × (h'.freed ≡ freeing n (samples cs) h.freed)
      × Keeps h cs h' (drop n cs)
unfolding truncate coded
truncate_lem zero n code h l cs v e le =
    let z : n ≡ 0 = omega arith in rw z (l, h, refl, v, refl, refl, Keeps-refl h cs)
truncate_lem (suc fuel) zero code h l cs v e le =
    let stop : ltb l.uplimit l.list_len ≡ false = ground (arith, v.len) in
    (l, h, rw (stop, truncate) refl, v, refl, refl, Keeps-refl h cs)
truncate_lem (suc fuel) (suc n) code h l [] v e le = absurd (omega arith)
truncate_lem (suc fuel) (suc n) code h l (c ∷ cs) v e le =
    let more : ltb l.uplimit l.list_len ≡ true = ground (arith, v.len) in
    let (l₁, h₁, e₁, w₁, up₁, freed₁, _, k₁) = drop_oldest_cons h l c cs v in
    let (l', h', e', w', up', freed', k') =
      truncate_lem fuel n (negsuc 0) h₁ l₁ cs w₁ (omega (arith, up₁)) (omega arith) in
    (
      l',
      h',
      rw (more, truncate) (rw (e₁, truncate) (e' ∙ ap (coded l' h') (code_after-negsuc n))),
      w',
      up' ∙ up₁,
      freed' ∙ ap (freeing n (samples cs)) freed₁,
      Keeps-trans h h₁ h' (c ∷ cs) cs (drop n cs) k₁ k',
    )

-- On a well-formed list, within as many rounds as it has nodes, list_clean frees every sample, oldest
-- first, and leaves the empty list.
pub list_clean_frees :
    (fuel : ℕ) (h : Heap) (l : SimpleList) (cs : Cells)
    → IsList h l cs
    → length cs ≤ fuel
    → (l' : SimpleList) × (h' : Heap) × (list_clean fuel l h ≡ some (l', h'))
      × Represents h' l' []
      × (h'.freed ≡ freeing (length cs) (samples cs) h.freed)
unfolding list_clean
list_clean_frees zero h l [] v le = (l, h, refl, ([], v, refl), refl)
list_clean_frees (suc fuel) h l [] v le =
    let stop : (l.list_len == 0) ≡ true = ground (arith, v.len) in
    (l, h, rw (stop, list_clean) refl, ([], v, refl), refl)
list_clean_frees zero h l (c ∷ cs) v le = absurd (omega arith)
list_clean_frees (suc fuel) h l (c ∷ cs) v le =
    let more : (l.list_len == 0) ≡ false = ground (arith, v.len) in
    let (l₁, h₁, e₁, w₁, up₁, freed₁, _, _) = drop_oldest_cons h l c cs v in
    let (l', h', e', w', freed') = list_clean_frees fuel h₁ l₁ cs w₁ (omega arith) in
    (
      l',
      h',
      rw (more, list_clean) (rw (e₁, list_clean) e'),
      w',
      freed' ∙ ap (freeing (length cs) (samples cs)) freed₁,
    )
