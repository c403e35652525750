-- ===== src/Base/Monad.antt =====
-- Stateful code that may panic, wait, or fault: functions from a state to an `Exit`.
use mathlib.Core.Path.{◌≡◌, refl}
use native.Mathlib.Omega.{arith}
use mathlib.Core.Bool.{Bool, true, false}
use min_async_runtime.Base.Effects.{
  Outcome, done, undefined, Exit, returned, panicked, blocked, exhausted, faulted,
}

abbrev pub M : Type 0 → Type 0 → Type 0
M S A = S → Exit S A

module _ {S : Type 0} where
  abbrev pub pure : {A : Type 0} → A → M S A
  pure a s = returned a s

  -- What follows a call, by how it ended.
  abbrev pub chain : {A B : Type 0} → Exit S A → (A → M S B) → Exit S B
  chain (returned a s) f = f a s
  chain (panicked s) f = panicked s
  chain blocked f = blocked
  chain exhausted f = exhausted
  chain faulted f = faulted

  infixl 5 ◌>>=◌ ◌>>◌
  abbrev pub ◌>>=◌ : {A B : Type 0} → M S A → (A → M S B) → M S B
  ◌>>=◌ m f s = chain (m s) f

  abbrev pub ◌>>◌ : {A B : Type 0} → M S A → M S B → M S B
  m >> k = m >>= λ _. k

  abbrev pub panic : {A : Type 0} → M S A
  panic s = panicked s

  abbrev pub get : M S S
  get s = returned s s

  abbrev pub modify : (S → S) → M S (Unit {0})
  modify f s = returned tt (f s)

  -- `assert!`
  abbrev pub assert : Bool → M S (Unit {0})
  assert true = pure tt
  assert false = panic

  -- `assert!` of a test on the state.
  abbrev pub asserts : (S → Bool) → M S (Unit {0})
  asserts test s = assert (test s) s

  abbrev pub caught : {A : Type 0} → Exit S A → Exit S Bool
  caught (returned a s) = returned true s
  caught (panicked s) = returned false s
  caught blocked = blocked
  caught exhausted = exhausted
  caught faulted = faulted

  -- `std::panic::catch_unwind`: whether the closure returned.
  abbrev pub catch_unwind : {A : Type 0} → M S A → M S Bool
  catch_unwind m s = caught (m s)

-- The end of a call on a part of the state, as an end of a call on the whole.
abbrev pub place : {S T A : Type 0} → (T → S → S) → S → Exit T A → Exit S A
place write s (returned a t) = returned a (write t s)
place write s (panicked t) = panicked (write t s)
place write s blocked = blocked
place write s exhausted = exhausted
place write s faulted = faulted

-- A call on one part of the state: `read` finds the part, `write` puts it back.
abbrev pub on : {S T A : Type 0} → (S → T) → (T → S → S) → M T A → M S A
on read write m s = place write s (m (read s))

-- A computation that changes the state, or faults.
abbrev pub access : {S A : Type 0} → (S → Outcome (A × S)) → M S A
access f s = elim (f s) [ done (a, s') ↦ returned a s' | undefined ↦ faulted ]

-- The names through which `rw` sees what a stuck call waits for.
pub ruleset effects = (chain, caught, place, access)

pub chain-returned :
    {S A B : Type 0} (x : Exit S A) (f : A → M S B) {b : B} {s' : S}
    → chain x f ≡ returned b s'
    → (a : A) × (s : S) × (x ≡ returned a s) × (f a s ≡ returned b s')
chain-returned (returned a s) f e = (a, s, refl, e)
chain-returned (panicked s) f e = cc
chain-returned blocked f e = cc
chain-returned exhausted f e = cc
chain-returned faulted f e = cc

pub place-returned :
    {S T A : Type 0} (write : T → S → S) (s : S) (x : Exit T A) {a : A} {s' : S}
    → place write s x ≡ returned a s'
    → (t : T) × (x ≡ returned a t) × (s' ≡ write t s)
place-returned write s (returned a t) e = (t, ground arith, ground arith)
place-returned write s (panicked t) e = cc
place-returned write s blocked e = cc
place-returned write s exhausted e = cc
place-returned write s faulted e = cc
