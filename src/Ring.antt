-- ===== src/Ring.antt =====
-- src/utils/ring_buffer.rs: `LockFreeBoundedRingBuffer`, one call at a time.
-- A slot is `none` while its `MaybeUninit` holds no value. `T` is not zero-sized, so that the
-- capacity of the collected vector is its length. An index out of bounds, and `assume_init` on an
-- empty slot, are `undefined`.
pub mod Window
pub mod Queue
pub mod Refine
pub mod Atomic
pub mod Races
mod Tests
mod UnitTests
use min_async_runtime.Base.{
  ℕ, ◌*◌, Bool, List, Option, none, some, length, get_or, set, replicate, ltb, leb, ◌==◌,
  if◌then◌else◌, ◌&&◌, add_usize, sub_usize, Outcome, done, undefined, ◌>>=◌,
}

pub record Ring {ℓ} (A : Type ℓ) : Type ℓ where
  pub buffer : List (Option A)
  pub start : ℕ
  pub end : ℕ
  pub count : ℕ

-- `Result<(), String>` of `push`; the one error is "Buffer is full".
pub data PushStatus : Type 0 where
  pushed buffer_full : PushStatus

abbrev pub default_buffer_size : ℕ
default_buffer_size = 1024 * 1024

module _ {ℓ} {A : Type ℓ} where
  pub new : ℕ → Ring A
  new bound = record { buffer = replicate bound none; start = 0; end = 0; count = 0 }

  abbrev pub capacity : Ring A → ℕ
  capacity r = length r.buffer

  abbrev pub len : Ring A → ℕ
  len r = r.count

  pub is_empty : Ring A → Bool
  is_empty r = len r == 0

  pub insert_value : Ring A → ℕ → A → Outcome (Ring A)
  insert_value r idx value =
      if ltb idx (length r.buffer)
      then done (record r { buffer = set r.buffer idx (some value) })
      else undefined

  abbrev pub next_end : Ring A → ℕ → ℕ
  next_end r current_end =
      if ltb (add_usize current_end 1) (capacity r) then add_usize current_end 1 else 0

  unfoldable pub push : Ring A → A → Outcome (PushStatus × Ring A)
  unfolding insert_value
  push r value = if len r == capacity r then done (buffer_full, r) else do
    r' ← insert_value r r.end value
    done (pushed, record r' { count = add_usize r'.count 1; end = next_end r r.end })

  pub get_value : Ring A → ℕ → Outcome (A × Ring A)
  get_value r idx = elim (get_or r.buffer idx none) [
    | none ↦ undefined
    | some value ↦ done (value, record r { buffer = set r.buffer idx none })
  ]

  abbrev pub next_start : Ring A → ℕ → ℕ
  next_start r current_start =
      if leb (capacity r) (add_usize current_start 1) then 0 else add_usize current_start 1

  unfoldable pub pop : Ring A → Outcome (Option A × Ring A)
  unfolding get_value
  pop r = if (r.start == r.end) && (r.count == 0) then done (none, r) else do
    (value, r') ← get_value r r.start
    done (some value, record r' { count = sub_usize r'.count 1; start = next_start r r.start })

-- `Default::default`
pub default {ℓ} : {A : Type ℓ} → Ring A
default = new default_buffer_size
