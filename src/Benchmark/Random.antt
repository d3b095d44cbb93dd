-- ===== src/Benchmark/Random.antt =====
-- The generator of random numbers of packages/benchmark/src/economics.ts. A number of 32 bits is a
-- natural number below 2^32, signed or not; a random number is its numerator over 2^32.
pub mod Period
use Prim.Native.Nat.{bit_or, bit_xor}
use taop_protocol.Prelude.{ℕ, zero, suc, ◌+◌, ◌*◌, ◌/◌, ◌%◌, ◌^◌}

abbrev pub two_32 : ℕ
two_32 = 2 ^ 32

abbrev pub increment : ℕ
increment = 1_831_565_813

-- Math.imul
abbrev imul : ℕ → ℕ → ℕ
imul a b = a * b % two_32

-- a >>> k
abbrev shift_right : ℕ → ℕ → ℕ
shift_right a k = a / 2 ^ k

-- `seed >>> 0`
abbrev pub rng : ℕ → ℕ
rng seed = seed % two_32

unfoldable pub next_state : ℕ → ℕ
next_state state = (state + increment) % two_32

-- What a call returns in the state that it has moved to.
unfoldable pub output : ℕ → ℕ
output state =
    let first = imul (bit_xor state (shift_right state 15)) (bit_or state 1) in
    let mixed = imul (bit_xor first (shift_right first 7)) (bit_or first 61) in
    let second = bit_xor first ((first + mixed) % two_32) in
    bit_xor second (shift_right second 14) % two_32

-- A call: the number, and the state that it leaves.
unfoldable pub random : ℕ → ℕ × ℕ
unfolding next_state output
random state = (output (next_state state), next_state state)

-- The state after so many calls.
unfoldable pub state_after : ℕ → ℕ → ℕ
unfolding random
state_after zero state = state
state_after (suc n) state = state_after n (random state).1

-- `Math.floor(random() * length)`. The product is exact in a double for lengths up to 2^21.
unfoldable pub pick : ℕ → ℕ → ℕ × ℕ
unfolding random
pick length state = let (number, next) = random state in (number * length / two_32, next)
