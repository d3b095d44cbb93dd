-- ===== src/Benchmark/Mechanisms/Scores.antt =====
-- The decay curve of the benchmark against that of the indexer, and the order of the scores.
use native.Mathlib.Nat.{mul-le-mul_right}
use taop_protocol.Prelude.{ℕ, ◌-◌, ◌*◌, ◌/◌, ◌≤◌, ◌≡◌, arith, leb, if◌then◌else◌}
use taop_protocol.Prelude.Int.{pos, ◌-ℤ◌}
use taop_protocol.Indexer.Decay.{DecayConstants, net_score, decay_net, decayed_score}
use taop_protocol.Benchmark.Mechanisms.Scoring.{decay_bps, linear_decay_score}

pub net_score-sub : (m d : ℕ) → net_score (pos m) d ≡ m - d
unfolding net_score ◌-ℤ◌
net_score-sub m d = ground arith

decay-bps :
    (c : DecayConstants) (net e : ℕ)
    → (if leb e c.grace then net else decay_net c net (e - c.grace))
      ≡ net * decay_bps e c.grace c.horizon / 10000
unfolding decay_net decay_bps
decay-bps c net e = ground arith

-- The indexer and the benchmark compute one curve: for every signal, number of disputes, time and
-- pair of constants the two functions give the same score.
pub decayed_score-linear_decay_score :
    (c : DecayConstants) (count disputes last_activity now : ℕ)
    → decayed_score c (pos count) disputes last_activity now
      ≡ linear_decay_score count disputes last_activity now c.grace c.horizon
unfolding decayed_score linear_decay_score
decayed_score-linear_decay_score c count disputes last now =
    rw (net_score-sub count disputes, decay-bps c (count - disputes) (now - last)) (ground arith)

scaled_mono : (m n b : ℕ) → m ≤ n → m * b / 10000 ≤ n * b / 10000
scaled_mono m n b h = omega (arith, mul-le-mul_right b h)

pub linear_decay_score_mono :
    (m n d l now g h : ℕ)
    → m ≤ n
    → linear_decay_score m d l now g h ≤ linear_decay_score n d l now g h
unfolding linear_decay_score
linear_decay_score_mono m n d l now g h p =
    ground (arith, scaled_mono (m - d) (n - d) (decay_bps (now - l) g h))
