-- ===== src/Executor/Waker.antt =====
-- src/task/task.rs: the raw waker of a task, as what it does to the reference count of the task's
-- `Arc`. The waker owns one reference, which `Arc::into_raw` has taken out of the count's sight.
use min_async_runtime.Base.{
  ℕ, length, ◌+◌, ◌-◌, ◌<◌, ◌≡◌, ◌≢◌, refl, Bool, true, false, List, [], ◌∷◌, Option, none, some,
  Exit, returned, panicked, blocked, exhausted, faulted, arith,
}
use min_async_runtime.Manager.{Manager, register_or_execute_non_blocking_task}
use min_async_runtime.Manager.Board.{Board, Shows}
use min_async_runtime.Manager.Refine.{register_or_execute_full}

-- The counter, and what holds a reference: wakers, and `Arc`s in the manager and with executors.
pub record Refs : Type 0 where
  pub strong : ℕ
  pub wakers : ℕ
  pub held : ℕ

-- What becomes of the `Arc` that is moved into `register_or_execute_non_blocking_task`: it is in the
-- task queue or a mailbox, or the call drops it and returns, or the call panics and unwinding drops
-- it.
pub data Registration : Type 0 where
  kept discarded unwound : Registration

-- The end of that call; one that waits has the `Arc` on its stack.
abbrev pub registration_of : Bool → Exit Manager (Unit {0}) → Registration
registration_of true x = discarded
registration_of false (returned u m) = kept
registration_of false (panicked m) = unwound
registration_of false blocked = kept
registration_of false exhausted = kept
registration_of false faulted = kept

-- `arc.manager.upgrade().unwrap()` panics when the manager is gone.
abbrev pub upgraded : (ℕ → Bool) → ℕ → Option Manager → Registration
upgraded aborted t none = unwound
upgraded aborted t (some m) =
    registration_of (aborted t) (register_or_execute_non_blocking_task aborted t m)

-- `Arc::clone(&task).waker()` of `forward_task`, by an executor that has an `Arc`.
abbrev pub new_waker : Refs → Refs
new_waker r = record r { strong = r.strong + 1; wakers = r.wakers + 1 }

-- `clone`: the original is forgotten, the clone becomes the new waker.
abbrev pub clone_waker : Refs → Refs
clone_waker r = record r { strong = r.strong + 1; wakers = r.wakers + 1 }

-- `drop`
abbrev pub drop_waker : Refs → Refs
drop_waker r = record r { strong = r.strong - 1; wakers = r.wakers - 1 }

-- An `Arc` that the manager or an executor had is dropped.
abbrev pub drop_held : Refs → Refs
drop_held r = record r { strong = r.strong - 1; held = r.held - 1 }

-- `wake`: the waker's reference is moved into the call.
abbrev pub wake_by_value : Registration → Refs → Refs
wake_by_value kept r = record r { wakers = r.wakers - 1; held = r.held + 1 }
wake_by_value discarded r = drop_waker r
wake_by_value unwound r = drop_waker r

-- `wake_by_ref`: a clone is moved into the call, and then the waker's own reference is forgotten. A
-- panic does not come to `forget`: the local `arc` is dropped as well.
abbrev pub wake_by_ref : Registration → Refs → Refs
wake_by_ref kept r = record r { strong = r.strong + 1; held = r.held + 1 }
wake_by_ref discarded r = record r { strong = r.strong + 1 - 1 }
wake_by_ref unwound r = record r { strong = r.strong - 1 }

-- A use of the task by those who have a reference to it.
pub data Use : Type 0 where
  polls clones drops finishes : Use
  wakes by_ref : Registration → Use

abbrev pub use_once : Use → Refs → Refs
use_once polls r = new_waker r
use_once clones r = clone_waker r
use_once drops r = drop_waker r
use_once finishes r = drop_held r
use_once (wakes reg) r = wake_by_value reg r
use_once (by_ref reg) r = wake_by_ref reg r

unfoldable pub use_all : List Use → Refs → Refs
use_all [] r = r
use_all (u ∷ us) r = use_all us (use_once u r)

-- Only what is there is used: a poll and an end by an `Arc`, the rest by a waker. No `wake_by_ref`
-- panics.
abbrev pub Owned : Use → Refs → Type 0
Owned polls r = 0 < r.held
Owned clones r = 0 < r.wakers
Owned drops r = 0 < r.wakers
Owned finishes r = 0 < r.held
Owned (wakes reg) r = 0 < r.wakers
Owned (by_ref reg) r = (0 < r.wakers) × (reg ≢ unwound)

abbrev pub AllOwned : List Use → Refs → Type 0
AllOwned [] r = Unit
AllOwned (u ∷ us) r = Owned u r × AllOwned us (use_once u r)

-- The counter counts the references.
abbrev pub Balanced : Refs → Type 0
Balanced r = r.strong ≡ r.wakers + r.held

use_once-Balanced : (u : Use) (r : Refs) → Owned u r → Balanced r → Balanced (use_once u r)
use_once-Balanced polls r owned b = omega arith
use_once-Balanced clones r owned b = omega arith
use_once-Balanced drops r owned b = omega arith
use_once-Balanced finishes r owned b = omega arith
use_once-Balanced (wakes kept) r owned b = omega arith
use_once-Balanced (wakes discarded) r owned b = omega arith
use_once-Balanced (wakes unwound) r owned b = omega arith
use_once-Balanced (by_ref kept) r (owned, fine) b = omega arith
use_once-Balanced (by_ref discarded) r (owned, fine) b = omega arith
use_once-Balanced (by_ref unwound) r (owned, fine) b = absurd (fine refl)

-- Whatever wakers and `Arc`s of a task are made, cloned, woken and dropped, by those who have them:
-- as long as no `wake_by_ref` panics, the reference count of the task stays the number of its wakers
-- and `Arc`s; so the task is freed with the last of them, neither before nor never.
pub use_all-Balanced :
    (us : List Use) (r : Refs)
    → Balanced r
    → AllOwned us r
    → Balanced (use_all us r)
      × ((use_all us r).strong ≡ 0 → ((use_all us r).wakers ≡ 0) × ((use_all us r).held ≡ 0))
unfolding use_all
use_all-Balanced [] r b owned = (b, λ freed. (omega arith, omega arith))
use_all-Balanced (u ∷ us) r b (now, later) =
    use_all-Balanced us (use_once u r) (use_once-Balanced u r now b) later

-- A `wake_by_ref` of a live task while the task queue of `cap` places is full and no executor is
-- idle panics, and releases the reference that the waker still owns: of a task that has one waker
-- and no other reference the count is then 0, which frees the task, while the waker is there.
pub wake_by_ref-frees :
    (aborted : ℕ → Bool) (t cap : ℕ) (m : Manager) (b : Board) (r : Refs)
    → Shows m cap b
    → aborted t ≡ false
    → b.idle ≡ []
    → length b.tasks ≡ cap
    → Balanced r
    → r.wakers ≡ 1
    → r.held ≡ 0
    → ((use_once (by_ref (upgraded aborted t (some m))) r).strong ≡ 0)
      × ((use_once (by_ref (upgraded aborted t (some m))) r).wakers ≡ 1)
wake_by_ref-frees aborted t cap m b r shown live idle full balanced one none_held =
    let panics = register_or_execute_full aborted m cap b shown t live idle full in
    rw (live, panics) (omega arith, one)
