-- ===== src/Ring/Tests.antt =====
-- src/utils/ring_buffer.rs at concrete buffers: the source's own test of several pushes and pops,
-- and the theorems of the sibling modules at inputs that meet their hypotheses.
use min_async_runtime.Base.{ℕ, ◌≡◌, refl, List, [], ◌∷◌, none, some, done, undefined, arith}
use min_async_runtime.Ring.{Ring, pushed, buffer_full, new, push, pop}
use min_async_runtime.Ring.Queue
use min_async_runtime.Ring.Queue.{Call, put, take, Reply, status, value, run_ring}
use min_async_runtime.Ring.Refine.{Holds, run-new}
use min_async_runtime.Ring.Atomic.{
  pushing, popping, check_full, load_start, push_returned, interleave,
}
use min_async_runtime.Ring.Races.{
  late_end, same_end, overwritten, pop_twice-undefined, push_twice-loses,
}

-- 12, then 14, round the end of the buffer
abbrev wrapped : Ring ℕ
wrapped = record { buffer = some 14 ∷ none ∷ some 12 ∷ []; start = 2; end = 1; count = 2 }

abbrev vacant : Ring ℕ
vacant = record { buffer = none ∷ none ∷ []; start = 0; end = 0; count = 0 }

wrapped-Holds : Holds wrapped 3 (12 ∷ 14 ∷ [])
wrapped-Holds = record {
  sized = refl;
  small = omega arith;
  start_in = omega arith;
  fits = omega arith;
  counted = refl;
  ends = refl;
  held = refl;
}

vacant-Holds : Holds vacant 2 []
vacant-Holds = record {
  sized = refl;
  small = omega arith;
  start_in = omega arith;
  fits = omega arith;
  counted = refl;
  ends = refl;
  held = refl;
}

abbrev script : List (Call ℕ)
script = put 10 ∷ put 12 ∷ take ∷ put 14 ∷ put 15 ∷ put 16 ∷ take ∷ take ∷ take ∷ take ∷ []

abbrev answers : List (Reply ℕ)
answers =
    status pushed
    ∷ status pushed
    ∷ value (some 10)
    ∷ status pushed
    ∷ status pushed
    ∷ status buffer_full
    ∷ value (some 12)
    ∷ value (some 14)
    ∷ value (some 15)
    ∷ value none
    ∷ []

run_ring_test : run_ring (new 3) script ≡ done answers
unfolding run_ring new push pop
run_ring_test = refl

run-new_example : run_ring (new 3) script ≡ done answers
unfolding Queue.run Queue.push Queue.pop
run-new_example = run-new 3 script (omega arith)

pop_twice-undefined_example :
    interleave vacant
      (pushing (check_full 7) ∷ popping load_start ∷ popping load_start ∷ [])
      late_end
    ≡ undefined
pop_twice-undefined_example = pop_twice-undefined vacant 2 7 vacant-Holds (omega arith) refl

push_twice-loses_example :
    (interleave vacant (pushing (check_full 7) ∷ pushing (check_full 8) ∷ []) same_end
      ≡ done (
        overwritten vacant 8,
        pushing (push_returned pushed) ∷ pushing (push_returned pushed) ∷ [],
      ))
    × ((ys : List ℕ) → ¬ Holds (overwritten vacant 8) 2 ys)
push_twice-loses_example = push_twice-loses vacant 2 [] 7 8 vacant-Holds (omega arith)
