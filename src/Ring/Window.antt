-- ===== src/Ring/Window.antt =====
-- The slots of src/utils/ring_buffer.rs that hold values, read round the end of the buffer.
use min_async_runtime.Base.{
  ℕ, zero, suc, ◌+◌, ◌-◌, ◌≤◌, ◌<◌, ◌≡◌, refl, ap, ap₂, ◌∙◌, ◌≢◌, List, [], ◌∷◌, ◌++◌, Option, none,
  ltb, if◌then◌else◌, length, get_or, set, get_or-set_self, get_or-set_ne, arith,
}

-- The index after `i`, and the one `k` places after `h`.
abbrev pub next : ℕ → ℕ → ℕ
next cap i = if ltb (i + 1) cap then i + 1 else 0

abbrev pub slot : ℕ → ℕ → ℕ → ℕ
slot cap h k = if ltb (h + k) cap then h + k else h + k - cap

pub slot-suc : (cap h n : ℕ) → h < cap → suc n < cap → slot cap h (suc n) ≡ slot cap (next cap h) n
slot-suc cap h n hh hn = ground arith

module _ {ℓ} {A : Type ℓ} where
  -- The `n` slots from index `h` on.
  abbrev pub window : List (Option A) → ℕ → ℕ → ℕ → List (Option A)
  window buf cap h zero = []
  window buf cap h (suc n) = get_or buf h none ∷ window buf cap (next cap h) n

  -- `window` matches on `suc`, the code counts down.
  pub window_of_pos :
      (buf : List (Option A)) (cap h n : ℕ)
      → 0 < n
      → window buf cap h n ≡ get_or buf h none ∷ window buf cap (next cap h) (n - 1)
  window_of_pos buf cap h zero p = elim p [ ]
  window_of_pos buf cap h (suc n) p = ap (λ k. window buf cap h (suc k)) (omega arith)

  -- Writing outside a window leaves it.
  pub window-set_outside :
      (buf : List (Option A)) (cap h n i : ℕ) (v : Option A)
      → h < cap
      → n ≤ cap
      → ((k : ℕ) → k < n → i ≢ slot cap h k)
      → window (set buf i v) cap h n ≡ window buf cap h n
  window-set_outside buf cap h zero i v hh hn out = refl
  window-set_outside buf cap h (suc n) i v hh hn out =
      ap₂ ◌∷◌ (get_or-set_ne buf v none (ground (arith, out 0))) (
        window-set_outside buf cap (next cap h) n i v (ground arith) (omega arith)
          (λ k hk. ground (arith, out (suc k))))

  -- Writing just past a window extends it by that slot.
  pub window-set_end :
      (buf : List (Option A)) (cap h n i : ℕ) (v : Option A)
      → cap ≤ length buf
      → h < cap
      → n < cap
      → i ≡ slot cap h n
      → window (set buf i v) cap h (suc n) ≡ window buf cap h n ++ (v ∷ [])
  window-set_end buf cap h zero i v hb hh hn e =
      ap (λ o. o ∷ []) (ground (arith, get_or-set_self buf i v none))
  window-set_end buf cap h (suc n) i v hb hh hn e =
      ap₂ ◌∷◌ (get_or-set_ne buf v none (ground arith)) (
        window-set_end buf cap (next cap h) n i v hb (ground arith) (omega arith)
          (e ∙ slot-suc cap h n hh hn))

  -- Taking the first value out and moving on leaves the rest of the window.
  pub window-set_front :
      (buf : List (Option A)) (cap h n : ℕ) (v : Option A)
      → h < cap
      → n < cap
      → window (set buf h v) cap (next cap h) n ≡ window buf cap (next cap h) n
  window-set_front buf cap h n v hh hn =
      window-set_outside buf cap (next cap h) n h v (ground arith) (omega arith)
        (λ k hk. ground arith)
