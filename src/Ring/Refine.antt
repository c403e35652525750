-- ===== src/Ring/Refine.antt =====
-- src/utils/ring_buffer.rs against the bounded queue of `Ring.Queue`.
use mathlib.Core.List.{map-append}
use native.Mathlib.Numerals.{add-one}
use min_async_runtime.Base.{
  ℕ, ◌+◌, ◌-◌, ◌≤◌, ◌<◌, ◌^◌, ◌≡◌, refl, ◌∙◌, ◌↔◌, max, true, false, List, [], ◌∷◌, ◌++◌, map, none,
  some, Bool-cases, inl, inr, ltb, leb, ◌==◌, ◌&&◌, add_usize, sub_usize, if◌then◌else◌, length,
  get_or, set, length-set, length-replicate, arith, done, length-append,
}
use min_async_runtime.Ring.{
  Ring, pushed, buffer_full, new, capacity, len, push, pop, get_value, is_empty,
}
use min_async_runtime.Ring.Window.{
  next, slot, window, window_of_pos, window-set_end, window-set_front,
}
use min_async_runtime.Ring.Queue
use min_async_runtime.Ring.Queue.{Call, put, take, Reply, run_ring}

-- `r` is a buffer of `cap` slots that holds `xs`, the oldest first. A `Vec` of values that are not
-- zero-sized has at most `isize::MAX` slots.
pub record Holds {ℓ} {A : Type ℓ} (r : Ring A) (cap : ℕ) (xs : List A) : Type ℓ where
  pub sized : capacity r ≡ cap
  pub small : cap < 2 ^ 63
  pub start_in : r.start < max 1 cap
  pub fits : length xs ≤ cap
  pub counted : r.count ≡ length xs
  pub ends : r.end ≡ slot cap r.start r.count
  pub held : window r.buffer cap r.start r.count ≡ map some xs

module _ {ℓ} {A : Type ℓ} where
  pub new-Holds : (bound : ℕ) → bound < 2 ^ 63 → Holds {A = A} (new bound) bound []
  unfolding new
  new-Holds bound h = record {
    sized = length-replicate bound none;
    small = h;
    start_in = ground arith;
    fits = ground arith;
    counted = refl;
    ends = ground arith;
    held = refl;
  }

  pub push-full :
      {r : Ring A} {cap : ℕ} {xs : List A} (x : A)
      → Holds r cap xs
      → length xs ≡ cap
      → push r x ≡ done (buffer_full, r)
  unfolding push
  push-full x h e = ground arith

  -- The ring after a push that finds room.
  unfoldable pub extended : Ring A → A → Ring A
  extended r x = record {
    buffer = set r.buffer r.end (some x);
    start = r.start;
    end = next (capacity r) r.end;
    count = r.count + 1;
  }

  push-room :
      {r : Ring A} {cap : ℕ} {xs : List A} (x : A)
      → Holds r cap xs
      → length xs < cap
      → push r x ≡ done (pushed, extended r x)
  unfolding push extended
  push-room {r} x h room =
      let not_full : (r.count == capacity r) ≡ false = ground arith in
      let in_bounds : ltb r.end (length r.buffer) ≡ true = ground arith in
      let end_fits : add_usize r.end 1 ≡ r.end + 1 = ground arith in
      let count_fits : add_usize r.count 1 ≡ r.count + 1 = ground arith in
      rw (not_full, in_bounds) (rw (end_fits, count_fits) refl)

  extended-Holds :
      {r : Ring A} {cap : ℕ} {xs : List A} (x : A)
      → Holds r cap xs
      → length xs < cap
      → Holds (extended r x) cap (xs ++ x ∷ [])
  unfolding extended
  extended-Holds {r} {cap} {xs} x h room = record {
    sized = length-set r.buffer r.end (some x) ∙ h.sized;
    small = h.small;
    start_in = h.start_in;
    fits = omega (arith, length-append xs (x ∷ []));
    counted = omega (arith, length-append xs (x ∷ []));
    ends = ground arith;
    held =
        rw (add-one, map-append, ← h.held)
          (window-set_end r.buffer cap r.start r.count r.end (some x) (omega arith) (omega arith)
            (omega arith) h.ends);
  }

  pub pop-empty : {r : Ring A} {cap : ℕ} → Holds r cap [] → pop r ≡ done (none, r)
  unfolding pop
  pop-empty h = ground arith

  -- The ring after a pop that finds a value.
  shortened : Ring A → Ring A
  shortened r = record {
    buffer = set r.buffer r.start none;
    start = next (capacity r) r.start;
    end = r.end;
    count = r.count - 1;
  }

  front :
      {r : Ring A} {cap : ℕ} {x : A} {xs : List A}
      → Holds r cap (x ∷ xs)
      → (get_or r.buffer r.start none ≡ some x)
        × (window r.buffer cap (next cap r.start) (r.count - 1) ≡ map some xs)
  front {r} {cap} {x} {xs} h =
      ground (arith, window_of_pos r.buffer cap r.start r.count (omega arith))

  pop-value :
      {r : Ring A} {cap : ℕ} {x : A} {xs : List A}
      → Holds r cap (x ∷ xs)
      → pop r ≡ done (some x, shortened r)
  unfolding pop shortened
  pop-value {r} {cap} h =
      let not_empty : ((r.start == r.end) && (r.count == 0)) ≡ false = ground arith in
      let start_fits : add_usize r.start 1 ≡ r.start + 1 = ground arith in
      let count_fits : sub_usize r.count 1 ≡ r.count - 1 = ground arith in
      let wraps : (if leb (capacity r) (r.start + 1) then 0 else r.start + 1)
          ≡ next (capacity r) r.start =
        ground arith in
      rw (not_empty, (front h).0, get_value) (rw (start_fits, count_fits, wraps) refl)

  shortened-Holds :
      {r : Ring A} {cap : ℕ} {x : A} {xs : List A}
      → Holds r cap (x ∷ xs)
      → Holds (shortened r) cap xs
  unfolding shortened
  shortened-Holds {r} {cap} {x} {xs} h = record {
    sized = length-set r.buffer r.start none ∙ h.sized;
    small = h.small;
    start_in = ground arith;
    fits = omega arith;
    counted = omega arith;
    ends = ground arith;
    held = rw h.sized (
        window-set_front r.buffer cap r.start (r.count - 1) none (omega arith) (omega arith)
        ∙ (front h).1);
  }

  -- A ring that holds `xs` answers a push as the bounded queue does, panic-free and within bounds,
  -- and then holds the queue's new content, on both branches.
  pub push_refines :
      (r : Ring A) (cap : ℕ) (xs : List A) (x : A)
      → Holds r cap xs
      → (r' : Ring A) × (push r x ≡ done ((Queue.push cap xs x).0, r'))
        × Holds r' cap (Queue.push cap xs x).1
  unfolding Queue.push
  push_refines r cap xs x h = elim (Bool-cases (length xs == cap)) [
    | inl e ↦ rw e (r, push-full x h (ground arith), h)
    | inr e ↦ rw e (extended r x, push-room x h (ground arith), extended-Holds x h (ground arith))
  ]

  -- A ring that holds `xs` answers a pop as the queue does, never reads an empty slot, and then
  -- holds what is left.
  pub pop_refines :
      (r : Ring A) (cap : ℕ) (xs : List A)
      → Holds r cap xs
      → (r' : Ring A) × (pop r ≡ done ((Queue.pop xs).0, r')) × Holds r' cap (Queue.pop xs).1
  unfolding Queue.pop
  pop_refines r cap [] h = (r, pop-empty h, h)
  pop_refines r cap (x ∷ xs) h = (shortened r, pop-value h, shortened-Holds h)

  pub push_accepts :
      {r : Ring A} {cap : ℕ} {xs : List A} (x : A)
      → Holds r cap xs
      → length xs < cap
      → (r' : Ring A) × (push r x ≡ done (pushed, r')) × Holds r' cap (xs ++ x ∷ [])
  push_accepts {r} x h room = (extended r x, push-room x h room, extended-Holds x h room)

  pub pop_takes :
      {r : Ring A} {cap : ℕ} {x : A} {xs : List A}
      → Holds r cap (x ∷ xs)
      → (r' : Ring A) × (pop r ≡ done (some x, r')) × Holds r' cap xs
  pop_takes {r} h = (shortened r, pop-value h, shortened-Holds h)

  run_refines :
      (r : Ring A) (cap : ℕ) (xs : List A) (calls : List (Call A))
      → Holds r cap xs
      → run_ring r calls ≡ done (Queue.run cap xs calls)
  unfolding run_ring Queue.run
  run_refines r cap xs [] h = refl
  run_refines r cap xs (put x ∷ calls) h =
      let (r', e, h') = push_refines r cap xs x h in
      rw e (rw (run_refines r' cap (Queue.push cap xs x).1 calls h'))
  run_refines r cap xs (take ∷ calls) h =
      let (r', e, h') = pop_refines r cap xs h in
      rw e (rw (run_refines r' cap (Queue.pop xs).1 calls h'))

  -- With a bound below 2 ^ 63, from `new` on, no sequence of calls tells the ring buffer from a
  -- queue of at most `bound` values: every call returns, with the queue's answer.
  pub run-new :
      (bound : ℕ) (calls : List (Call A))
      → bound < 2 ^ 63
      → run_ring (new bound) calls ≡ done (Queue.run bound [] calls)
  run-new bound calls h = run_refines (new bound) bound [] calls (new-Holds bound h)

  -- `len`, `capacity` and `is_empty` read the queue's length, the bound, and whether it is empty.
  pub observers :
      (r : Ring A) (cap : ℕ) (xs : List A)
      → Holds r cap xs
      → (len r ≡ length xs) × (capacity r ≡ cap) × ((is_empty r ≡ true) ↔ (length xs ≡ 0))
  unfolding is_empty
  observers r cap xs h = (h.counted, h.sized, ground arith)
