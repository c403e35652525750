-- ===== src/Ring/Races.antt =====
-- src/utils/ring_buffer.rs: what its steps do alone, and what they do to each other.
use min_async_runtime.Base.{
  ℕ, ◌+◌, ◌≤◌, ◌≡◌, refl, ◌∙◌, List, [], ◌∷◌, none, some, set, length, get_or, true, false, ltb,
  ◌==◌, ◌&&◌, Bool-cases, Option-cases, get_or-set_self, get_or-set_ne, length-set, set-set, inl,
  inr, add_usize, Outcome, done, undefined, ◌>>=◌, arith,
}
use min_async_runtime.Ring.{Ring, pushed, capacity, next_start, push, pop, insert_value, get_value}
use min_async_runtime.Ring.Atomic.{
  check_full, push_returned, load_start, pop_returned, Thread, pushing, popping, interleave,
}
use min_async_runtime.Ring.Refine.{Holds, extended}
use min_async_runtime.Ring.Window.{next}

-- The schedule: a push (thread 0) counts its value and has not yet moved `end`; a pop (thread 1)
-- takes that value; a later pop (thread 2) sees `start` ahead of `end`.
abbrev pub late_end : List ℕ
late_end = 0 ∷ 0 ∷ 0 ∷ 0 ∷ 1 ∷ 1 ∷ 1 ∷ 1 ∷ 1 ∷ 1 ∷ 2 ∷ 2 ∷ 2 ∷ 2 ∷ []

-- The schedule: two pushes both load `end` before either stores it.
abbrev pub same_end : List ℕ
same_end = 0 ∷ 1 ∷ 0 ∷ 1 ∷ 0 ∷ 1 ∷ 0 ∷ 1 ∷ 0 ∷ 1 ∷ []

module _ {ℓ} {A : Type ℓ} where
  -- The steps of one `push` with nobody in between.
  pub push_alone : Ring A → A → Outcome (Ring A × List (Thread A))
  unfolding interleave
  push_alone r x = interleave r (pushing (check_full x) ∷ []) (0 ∷ 0 ∷ 0 ∷ 0 ∷ 0 ∷ [])

  push_alone-eq-push :
      (r : Ring A) (x : A)
      → push_alone r x ≡ (push r x >>= λ (s, r'). done (r', pushing (push_returned s) ∷ []))
  unfolding push_alone push
  push_alone-eq-push r x = elim (Bool-cases (r.count == capacity r)) [
    | inl e ↦ rw e
    | inr e ↦ elim (Bool-cases (ltb r.end (capacity r))) [
      | inl b ↦ rw (e, b, insert_value) (rw (length-set r.buffer r.end (some x)))
      | inr b ↦ rw (e, b, insert_value)
    ]
  ]

  pub pop_alone : Ring A → Outcome (Ring A × List (Thread A))
  unfolding interleave
  pop_alone r = interleave r (popping load_start ∷ []) (0 ∷ 0 ∷ 0 ∷ 0 ∷ 0 ∷ 0 ∷ [])

  pop_alone-eq-pop :
      (r : Ring A) → pop_alone r ≡ (pop r >>= λ (o, r'). done (r', popping (pop_returned o) ∷ []))
  unfolding pop_alone pop
  pop_alone-eq-pop r = elim (Bool-cases ((r.start == r.end) && (r.count == 0))) [
    | inl e ↦ rw e
    | inr e ↦ elim (Option-cases (get_or r.buffer r.start none)) [
      | inl b ↦ rw (e, b, get_value)
      | inr (v, b) ↦ rw (e, b, get_value) (rw (length-set r.buffer r.start none))
    ]
  ]

  -- A thread that runs alone, access by access, does what the whole call does, on every branch:
  -- for `push`, and for `pop`.
  pub alone-eq-calls :
      (r : Ring A) (x : A)
      → (push_alone r x ≡ (push r x >>= λ (s, r'). done (r', pushing (push_returned s) ∷ [])))
        × (pop_alone r ≡ (pop r >>= λ (o, r'). done (r', popping (pop_returned o) ∷ [])))
  alone-eq-calls r x = (push_alone-eq-push r x, pop_alone-eq-pop r)

module _ {ℓ} {A : Type ℓ} where
  -- With one pushing and two popping threads, on an empty ring of two slots or more whose next slot
  -- holds nothing, there is a schedule that reads an empty slot, which is undefined behaviour: the
  -- push has counted its value and not yet moved `end` when one pop takes the value and the other
  -- then sees `start` ahead of `end`.
  pub pop_twice-undefined :
      (r : Ring A) (cap : ℕ) (x : A)
      → Holds r cap []
      → 2 ≤ cap
      → get_or r.buffer (next cap r.start) none ≡ none
      → interleave r
          (pushing (check_full x) ∷ popping load_start ∷ popping load_start ∷ [])
          late_end
        ≡ undefined
  unfolding interleave
  pop_twice-undefined r cap x h two clear =
      let room : (r.count == capacity r) ≡ false = ground arith in
      let in_bounds : ltb r.end (length r.buffer) ≡ true = ground arith in
      let count_one : add_usize r.count 1 ≡ 1 = ground arith in
      let read : get_or (set r.buffer r.end (some x)) r.start none ≡ some x =
        ground (arith, get_or-set_self r.buffer r.end (some x) none) in
      let not_empty : ((r.start == r.end) && (1 == 0)) ≡ false = ground arith in
      let cleared : length (set (set r.buffer r.end (some x)) r.start none) ≡ capacity r =
        length-set _ r.start none ∙ length-set r.buffer r.end (some x) in
      let moved : next_start r r.start ≡ next cap r.start = ground arith in
      let ahead : ((next cap r.start == r.end) && (0 == 0)) ≡ false = ground arith in
      let hole : get_or (set (set r.buffer r.end (some x)) r.start none) (next cap r.start) none
          ≡ none =
        get_or-set_ne (set r.buffer r.end (some x)) {i = r.start} {j = next cap r.start} none none
          (ground arith)
        ∙ get_or-set_ne r.buffer {i = r.end} {j = next cap r.start} (some x) none (ground arith)
        ∙ clear in
      rw (room, in_bounds, insert_value)
        (rw (count_one, not_empty, read, get_value)
          (rw (cleared, moved) (rw (ahead, hole, get_value) refl)))

  -- The ring after the two pushes: `y` alone was added, and counted twice.
  abbrev pub overwritten : Ring A → A → Ring A
  overwritten r y = record (extended r y) { count = r.count + 2 }

  -- Two pushing threads, on a ring with room for both, which both load `end` before either stores
  -- it: both pushes report success, the first value is overwritten, and what is left is no ring of
  -- any content.
  pub push_twice-loses :
      (r : Ring A) (cap : ℕ) (xs : List A) (x y : A)
      → Holds r cap xs
      → length xs + 2 ≤ cap
      → (interleave r (pushing (check_full x) ∷ pushing (check_full y) ∷ []) same_end
          ≡ done (
            overwritten r y,
            pushing (push_returned pushed) ∷ pushing (push_returned pushed) ∷ [],
          ))
        × ((ys : List A) → ¬ Holds (overwritten r y) cap ys)
  unfolding interleave extended
  push_twice-loses r cap xs x y h room =
      let not_full : (r.count == capacity r) ≡ false = ground arith in
      let in_bounds : ltb r.end (length r.buffer) ≡ true = ground arith in
      let same_length : length (set r.buffer r.end (some x)) ≡ length r.buffer =
        length-set r.buffer r.end (some x) in
      let in_bounds' : ltb r.end (length (set r.buffer r.end (some x))) ≡ true =
        rw same_length in_bounds in
      let counted : add_usize (add_usize r.count 1) 1 ≡ r.count + 2 = ground arith in
      let end_fits : add_usize r.end 1 ≡ r.end + 1 = ground arith in
      let both = set-set r.buffer r.end (some x) (some y) in
      let final_length = length-set r.buffer r.end (some y) in
      (
        rw (not_full, in_bounds, insert_value)
            (rw (in_bounds', insert_value) (rw (both, counted) (rw (final_length, end_fits)))),
        λ ys bad. ground arith,
      )
