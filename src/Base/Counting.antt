-- ===== src/Base/Counting.antt =====
-- How often a number occurs in a list, and how long a list without repetition can be.
use Prim.Native.Nat.{ℕ, zero, suc, ◌+◌, ◌≤◌, ◌<◌}
use mathlib.Core.Path.{◌≡◌, refl, ap}
use mathlib.Core.Logic.{◌≢◌, inl, inr}
use mathlib.Core.List.{List, [], ◌∷◌, ◌++◌}
use native.Mathlib.Omega.{arith}
use min_async_runtime.Base.Tests.{◌==◌, if◌then◌else◌, Bool-cases}
use min_async_runtime.Base.Lists.{length}

abbrev pub count : ℕ → List ℕ → ℕ
count x [] = 0
count x (y ∷ ys) = (if y == x then 1 else 0) + count x ys

pub count-append : (x : ℕ) (ys zs : List ℕ) → count x (ys ++ zs) ≡ count x ys + count x zs
count-append x [] zs = omega arith
count-append x (y ∷ ys) zs = omega (arith, count-append x ys zs)

without : ℕ → List ℕ → List ℕ
without x [] = []
without x (y ∷ ys) = if y == x then without x ys else y ∷ without x ys

length-without : (x : ℕ) (ys : List ℕ) → length ys ≡ count x ys + length (without x ys)
unfolding without
length-without x [] = refl
length-without x (y ∷ ys) = ground (arith, length-without x ys)

count-without : (x e : ℕ) (ys : List ℕ) → count e (without x ys) ≤ count e ys
unfolding without
count-without x e [] = omega arith
count-without x e (y ∷ ys) = ground (arith, count-without x e ys)

count-without_self : (x : ℕ) (ys : List ℕ) → count x (without x ys) ≡ 0
unfolding without
count-without_self x [] = refl
count-without_self x (y ∷ ys) = ground (arith, count-without_self x ys)

-- Numbers below `n`, none of them twice, are at most `n`.
pub length_of_distinct :
    (n : ℕ) (ys : List ℕ)
    → ((e : ℕ) → count e ys ≤ 1)
    → ((e : ℕ) → n ≤ e → count e ys ≡ 0)
    → length ys ≤ n
length_of_distinct zero [] once below = omega arith
length_of_distinct zero (y ∷ ys) once below = ground (arith, below y)
length_of_distinct (suc n) ys once below =
    let rest =
      length_of_distinct n (without n ys) (λ e. omega (arith, once e, count-without n e ys))
        (λ e h. ground (arith, count-without n e ys, count-without_self n ys, below e)) in
    omega (arith, rest, length-without n ys, once n)

-- The sum of `f 0`, …, `f (n - 1)`.
abbrev pub total : ℕ → (ℕ → ℕ) → ℕ
total zero f = 0
total (suc n) f = total n f + f n

pub total-same : (n : ℕ) (f g : ℕ → ℕ) → ((e : ℕ) → e < n → f e ≡ g e) → total n f ≡ total n g
total-same zero f g same = refl
total-same (suc n) f g same =
    omega (arith, total-same n f g (λ e below. same e (omega arith)), same n (omega arith))

-- Two functions that differ at `i` alone.
pub total-update :
    (n i : ℕ) (f g : ℕ → ℕ)
    → i < n
    → ((e : ℕ) → e ≢ i → f e ≡ g e)
    → total n f + g i ≡ total n g + f i
total-update zero i f g below same = absurd (omega arith)
total-update (suc n) i f g below same = elim (Bool-cases (n == i)) [
  | inl last ↦
      let e : n ≡ i = ground arith in
      omega (arith, e, ap f e, ap g e, total-same n f g (λ j lower. same j (omega arith)))
  | inr other ↦
      let ne : n ≢ i = ground arith in
      omega (arith, same n ne, total-update n i f g (omega arith) same)
]

pub total_zero : (n : ℕ) (f : ℕ → ℕ) → ((e : ℕ) → e < n → f e ≡ 0) → total n f ≡ 0
total_zero zero f none_counted = refl
total_zero (suc n) f none_counted =
    omega (
      arith,
      total_zero n f (λ e below. none_counted e (omega arith)),
      none_counted n (omega arith),
    )
