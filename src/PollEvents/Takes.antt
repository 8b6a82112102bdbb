-- ===== src/PollEvents/Takes.antt =====
-- No event is lost or comes twice, and the buffer is not overrun.
use mathlib.Core.List.{append_assoc}
use smi240_android_hal.Prelude.{
  ℕ, zero, suc, ◌+◌, ◌-◌, ◌≤◌, ◌<◌, ◌≡◌, refl, ap, ◌∙◌, true, List, [], ◌∷◌, ◌++◌, ◌==◌, length,
  take, drop, length-append, arith, Bool-cases, inl, inr,
}
use smi240_android_hal.PollEvents.{
  Turn, interrupted, timed_out, no_input, failed, input, Outcome, returned, waiting, error,
  read_events, poll_from, poll_events,
}

module _ {A : Type 0} where
  take-append-drop : (n : ℕ) (xs : List A) → take n xs ++ drop n xs ≡ xs
  take-append-drop zero xs = refl
  take-append-drop (suc n) [] = refl
  take-append-drop (suc n) (x ∷ xs) = ap (◌∷◌ x) (take-append-drop n xs)

  length-take : (n : ℕ) (xs : List A) → n ≤ length xs → length (take n xs) ≡ n
  length-take zero xs h = refl
  length-take (suc n) [] h = absurd (omega arith)
  length-take (suc n) (x ∷ xs) h = ap suc (length-take n xs (omega arith))

  read_events-le :
      (count available : ℕ) (pipe : List A)
      → (read_events count available pipe ≤ count)
        × (read_events count available pipe ≤ length pipe)
  unfolding read_events
  read_events-le count available pipe = ground arith

  -- What is in the buffer and what is left are the events of the pipe, in order, the buffer holds no
  -- more than there was room for, and a call that returns has an event, if there was room for one.
  abbrev pub Takes : List A → ℕ → Outcome A → Type 0
  Takes all room (returned buffer left) =
      (buffer ++ left ≡ all) × (length buffer ≤ room) × (0 < room → 0 < length buffer)
  Takes all room (waiting buffer left) = (buffer ++ left ≡ all) × (length buffer ≤ room)
  Takes all room (error errno buffer left) = (buffer ++ left ≡ all) × (length buffer ≤ room)

  full-Takes :
      (buffer pipe : List A) (count room : ℕ)
      → length buffer + count ≡ room
      → (count == 0) ≡ true
      → Takes (buffer ++ pipe) room (returned buffer pipe)
  full-Takes buffer pipe count room e z = (refl, ground (arith, e), λ h. ground (arith, e))

  poll_from-Takes :
      (ts : List Turn) (buffer pipe : List A) (count room : ℕ)
      → length buffer + count ≡ room
      → Takes (buffer ++ pipe) room (poll_from ts buffer pipe count)
  unfolding poll_from
  poll_from-Takes [] buffer pipe count room e = elim (Bool-cases (count == 0)) [
    | inl z ↦ rw z (full-Takes buffer pipe count room e z)
    | inr m ↦ rw m (refl, omega arith)
  ]
  poll_from-Takes (interrupted ∷ ts) buffer pipe count room e = elim (Bool-cases (count == 0)) [
    | inl z ↦ rw z (full-Takes buffer pipe count room e z)
    | inr m ↦ rw m (poll_from-Takes ts buffer pipe count room e)
  ]
  poll_from-Takes (no_input ∷ ts) buffer pipe count room e = elim (Bool-cases (count == 0)) [
    | inl z ↦ rw z (full-Takes buffer pipe count room e z)
    | inr m ↦ rw m (poll_from-Takes ts buffer pipe count room e)
  ]
  poll_from-Takes (timed_out ∷ ts) buffer pipe count room e = elim (Bool-cases (count == 0)) [
    | inl z ↦ rw z (full-Takes buffer pipe count room e z)
    | inr m ↦ elim (Bool-cases (length buffer == 0)) [
      | inl none_yet ↦ rw (m, none_yet) (poll_from-Takes ts buffer pipe count room e)
      | inr some_read ↦ rw (m, some_read) (refl, omega arith, λ h. ground arith)
    ]
  ]
  poll_from-Takes (failed n ∷ ts) buffer pipe count room e = elim (Bool-cases (count == 0)) [
    | inl z ↦ rw z (full-Takes buffer pipe count room e z)
    | inr m ↦ rw m (refl, omega arith)
  ]
  poll_from-Takes (input available ∷ ts) buffer pipe count room e = elim (Bool-cases (count == 0)) [
    | inl z ↦ rw z (full-Takes buffer pipe count room e z)
    | inr m ↦
        let n : ℕ = read_events count available pipe in
        let (le, le') = read_events-le count available pipe in
        let whole : (buffer ++ take n pipe) ++ drop n pipe ≡ buffer ++ pipe =
          append_assoc buffer (take n pipe) (drop n pipe)
          ∙ ap (λ xs. buffer ++ xs) (take-append-drop n pipe) in
        let room_left : length (buffer ++ take n pipe) + (count - n) ≡ room =
          omega (arith, length-append buffer (take n pipe), length-take n pipe le') in
        rw (m, ← whole)
          (poll_from-Takes ts (buffer ++ take n pipe) (drop n pipe) (count - n) room room_left)
  ]

  -- Whatever poll() and the reads do: what the buffer holds and what is left in the pipe are the events
  -- of the pipe, each once and in their order, no more of them are in the buffer than it has room for,
  -- and where the call returns a number and there was room for an event, the buffer has one.
  pub poll_events-Takes :
      (ts : List Turn) (pipe : List A) (count : ℕ) → Takes pipe count (poll_events ts pipe count)
  unfolding poll_events
  poll_events-Takes ts pipe count = poll_from-Takes ts [] pipe count count (omega arith)
