-- ===== src/Pool/Races.antt =====
-- src/pool/thread_pool.rs `get_and_update_index` with other threads in between: its two accesses of
-- the cursor, and a schedule that says which thread makes the next one.
use min_async_runtime.Base.{
  ℕ, ◌+◌, ◌%◌, ◌<◌, ◌≡◌, ◌≢◌, refl, sym, ap, ◌∙◌, inl, inr, false, List, [], ◌∷◌, Option, none,
  some, set, length, get_elem?-below, get_elem?, get_elem?-set_self, get_elem?-set_ne, Option-cases,
  Bool-cases, ◌==◌, if◌then◌else◌, returned, arith,
}
use native.Mathlib.Nat.{mod-lt}
use min_async_runtime.Mpsc.{Mpsc}
use min_async_runtime.Pool.{Pool, get_and_update_index}

-- Where a thread stands in `get_and_update_index`, with its local variable.
pub data IndexPoint : Type 0 where
  load_cursor : IndexPoint
  store_cursor : ℕ → IndexPoint
  index_returned : ℕ → IndexPoint

-- The local variable is the index of a thread of the pool.
abbrev pub IndexBelow : ℕ → IndexPoint → Type 0
IndexBelow n load_cursor = Unit
IndexBelow n (store_cursor c) = c < n
IndexBelow n (index_returned c) = c < n

-- The schedule: two calls both load the cursor before either stores it.
abbrev pub both_load : List ℕ
both_load = 0 ∷ 1 ∷ 0 ∷ 1 ∷ []

module _ {J : Type 0} where
  -- The next access; `none` is the panic of a remainder by 0.
  unfoldable pub index_step : Pool J → IndexPoint → Option (Pool J × IndexPoint)
  index_step p load_cursor = some (p, store_cursor p.cursor)
  index_step p (store_cursor c) =
      if p.num_threads == 0
      then none
      else some (record p { cursor = (c + 1) % p.num_threads }, index_returned c)
  index_step p (index_returned c) = some (p, index_returned c)

  abbrev pub after_step :
      List IndexPoint → ℕ → Option (Pool J × IndexPoint) → Option (Pool J × List IndexPoint)
  after_step threads i none = none
  after_step threads i (some (p, t)) = some (p, set threads i t)

  abbrev pub turn_of :
      Pool J → List IndexPoint → ℕ → Option IndexPoint → Option (Pool J × List IndexPoint)
  turn_of p threads i none = some (p, threads)
  turn_of p threads i (some t) = after_step threads i (index_step p t)

  unfoldable pub interleave_from :
      Option (Pool J × List IndexPoint) → List ℕ → Option (Pool J × List IndexPoint)
  interleave_from state [] = state
  interleave_from none (i ∷ schedule) = none
  interleave_from (some (p, threads)) (i ∷ schedule) =
      interleave_from (turn_of p threads i (get_elem? threads i)) schedule

  -- A pool of `n` threads whose cursor is in range, while calls that are in range are under way.
  pub record InRange (n : ℕ) (p : Pool J) (threads : List IndexPoint) : Type 0 where
    pub size : p.num_threads ≡ n
    pub cursor_in : p.cursor < n
    pub calls_in : (i : ℕ) (t : IndexPoint) → get_elem? threads i ≡ some t → IndexBelow n t

  index_step-below :
      (n : ℕ) (p : Pool J) (t : IndexPoint)
      → p.num_threads ≡ n
      → p.cursor < n
      → IndexBelow n t
      → (p' : Pool J) × (t' : IndexPoint) × (index_step p t ≡ some (p', t'))
        × (p'.num_threads ≡ n)
        × (p'.cursor < n)
        × IndexBelow n t'
        × (p'.senders ≡ p.senders)
  unfolding index_step
  index_step-below n p load_cursor size below held =
      (p, store_cursor p.cursor, refl, size, below, below, refl)
  index_step-below n p (store_cursor c) size below held =
      let some_thread : (p.num_threads == 0) ≡ false = ground arith in
      (
        record p { cursor = (c + 1) % p.num_threads },
        index_returned c,
        rw some_thread refl,
        size,
        rw size (mod-lt (c + 1) (omega arith)),
        held,
        refl,
      )
  index_step-below n p (index_returned c) size below held =
      (p, index_returned c, refl, size, below, held, refl)

  turn_of-InRange :
      (n : ℕ) (p : Pool J) (threads : List IndexPoint) (i : ℕ)
      → InRange n p threads
      → (p' : Pool J) × (threads' : List IndexPoint) × (turn_of p threads i (get_elem? threads i)
          ≡ some (p', threads'))
        × InRange n p' threads'
        × (p'.senders ≡ p.senders)
  turn_of-InRange n p threads i v = elim (Option-cases (get_elem? threads i)) [
    | inl nobody ↦ (p, threads, rw nobody refl, v, refl)
    | inr (t, found) ↦
        let (p', t', e, size, cursor_in, below, same) =
          index_step-below n p t v.size v.cursor_in (v.calls_in i t found) in
        (
          p',
          set threads i t',
          rw found (rw (e, after_step) refl),
          record {
            size = size;
            cursor_in = cursor_in;
            calls_in = λ j u there. elim (Bool-cases (i == j)) [
              | inl same_thread ↦
                  let it : i ≡ j = ground arith in
                  let got : some t' ≡ some u =
                    sym (get_elem?-set_self threads i t' found) ∙ rw (← it) at there in
                  let new : t' ≡ u = cc in rw (← new) below
              | inr other ↦
                  v.calls_in j u (sym (get_elem?-set_ne threads i j t' (ground arith)) ∙ there)
            ];
          },
          same,
        )
  ]

  -- On a pool with a thread or more, whose cursor is in range, and with any number of calls of
  -- `get_and_update_index` under way, under every schedule of their accesses: no call panics, the
  -- cursor stays in range, and each index that a call returns or is about to return is that of a
  -- sender, so that `self.senders[idx]` does not panic.
  pub interleave_from-InRange :
      (schedule : List ℕ) (n : ℕ) (p : Pool J) (threads : List IndexPoint)
      → InRange n p threads
      → length p.senders ≡ n
      → (p' : Pool J) × (threads' : List IndexPoint) × (interleave_from (some (p, threads)) schedule
          ≡ some (p', threads'))
        × InRange n p' threads'
        × ((i c : ℕ)
            → get_elem? threads' i ≡ some (index_returned c)
            → (ch : Mpsc J) × (get_elem? p'.senders c ≡ some ch))
  unfolding interleave_from
  interleave_from-InRange [] n p threads v sized = (
    p,
    threads,
    refl,
    v,
    λ i c found. get_elem?-below p.senders c (omega (arith, v.calls_in i (index_returned c) found)),
  )
  interleave_from-InRange (i ∷ schedule) n p threads v sized =
      let (p₁, threads₁, e, v₁, same) = turn_of-InRange n p threads i v in
      let (p', threads', e', v', found) =
        interleave_from-InRange schedule n p₁ threads₁ v₁ (ap length same ∙ sized) in
      (p', threads', rw e e', v', found)

  -- Two calls of `get_and_update_index` on a pool with a thread or more, the first of which stores
  -- the cursor only after the second has loaded it: both return the same index, and the cursor moves
  -- on by one place only. One call alone does what `get_and_update_index` does.
  pub interleave_from-same_index :
      (p : Pool J)
      → p.num_threads ≢ 0
      → (interleave_from (some (p, load_cursor ∷ load_cursor ∷ [])) both_load
          ≡ some (
            record p { cursor = (p.cursor + 1) % p.num_threads },
            index_returned p.cursor ∷ index_returned p.cursor ∷ [],
          ))
        × (get_and_update_index p
            ≡ returned p.cursor (record p { cursor = (p.cursor + 1) % p.num_threads }))
        × (interleave_from (some (p, load_cursor ∷ [])) (0 ∷ 0 ∷ [])
            ≡ some (
              record p { cursor = (p.cursor + 1) % p.num_threads },
              index_returned p.cursor ∷ [],
            ))
  unfolding interleave_from index_step get_and_update_index
  interleave_from-same_index p some_thread =
      let test : (p.num_threads == 0) ≡ false = ground arith in
      (rw (test, interleave_from) (rw test refl), rw test refl, rw (test, interleave_from) refl)
