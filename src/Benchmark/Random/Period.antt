-- ===== src/Benchmark/Random/Period.antt =====
-- The period of the generator of packages/benchmark/src/economics.ts, and the range of what it picks.
use taop_protocol.Prelude.{ℕ, zero, suc, ◌+◌, ◌*◌, ◌%◌, ◌≤◌, ◌<◌, ◌≡◌, ◌≢◌, sym, ap, ◌∙◌, arith}
use taop_protocol.Benchmark.Random.{
  two_32, increment, rng, next_state, output, random, state_after, pick,
}

state_after-eq : (n seed : ℕ) → state_after n (rng seed) ≡ (seed + n * increment) % two_32
unfolding state_after random next_state
state_after-eq zero seed = ground arith
state_after-eq (suc n) seed =
    let step : (seed % two_32 + increment) % two_32 ≡ (seed + increment) % two_32 = omega arith in
    let sum : seed + increment + n * increment ≡ seed + suc n * increment = omega arith in
    ap (state_after n) step ∙ state_after-eq n (seed + increment) ∙ ap (λ x. x % two_32) sum

-- The generator does not repeat a state within 2^32 calls, and after 2^32 calls it is back at the
-- state of its seed: it has the full period, for every seed.
pub state_after-period :
    (seed i j : ℕ)
    → i < j
    → j < i + two_32
    → (state_after i (rng seed) ≢ state_after j (rng seed))
      × (state_after two_32 (rng seed) ≡ rng seed)
state_after-period seed i j less near = (
  λ e.
      let same : (seed + i * increment) % two_32 ≡ (seed + j * increment) % two_32 =
        sym (state_after-eq i seed) ∙ e ∙ state_after-eq j seed in
      omega arith,
  state_after-eq two_32 seed ∙ omega arith,
)

output-lt : (state : ℕ) → output state < two_32
unfolding output
output-lt state = omega arith

-- What is picked is an index of the list, where it is not empty.
pub pick-lt : (length state : ℕ) → 1 ≤ length → (pick length state).0 < length
unfolding pick random
pick-lt length state pos = grind (arith, output-lt (next_state state))
