-- ===== src/Indexer/Decay/Bounds.antt =====
-- How the score of an agent falls with its inactivity.
use native.Mathlib.Nat.{mul-le-mul_left, div-le_of_le-mul}
use native.Mathlib.Decide.{dec_lt}
use taop_protocol.Prelude.{ℕ, ◌+◌, ◌-◌, ◌*◌, ◌/◌, ◌≤◌, ◌<◌, ◌≡◌, arith}
use taop_protocol.Prelude.Int.{ℤ}
use taop_protocol.Indexer.Decay.{DecayConstants, net_score, decay_net, decayed_score}

div_mono : (a b h : ℕ) → 0 < h → a ≤ b → a / h ≤ b / h
div_mono a b h p q = grind (arith)

bps-le : (h d : ℕ) → (h - d) * 10000 / h ≤ 10000
bps-le h d = div-le_of_le-mul h (grind (arith))

scaled-le : (net b : ℕ) → b ≤ 10000 → net * b / 10000 ≤ net
scaled-le net b p = omega (arith, mul-le-mul_left net p)

scaled_mono : (net a b : ℕ) → a ≤ b → net * a / 10000 ≤ net * b / 10000
scaled_mono net a b p = omega (arith, mul-le-mul_left net p)

decay_net-le : (c : DecayConstants) (net d : ℕ) → decay_net c net d ≤ net
unfolding decay_net
decay_net-le c net d =
    ground (arith, scaled-le net ((c.horizon - d) * 10000 / c.horizon) (bps-le c.horizon d))

decay_net_mono : (c : DecayConstants) (net d e : ℕ) → d ≤ e → decay_net c net e ≤ decay_net c net d
unfolding decay_net
decay_net_mono c net d e p = elim (dec_lt d c.horizon) [
  | yes q ↦ ground (
    arith,
    scaled_mono net ((c.horizon - e) * 10000 / c.horizon) ((c.horizon - d) * 10000 / c.horizon) (
        div_mono ((c.horizon - e) * 10000) ((c.horizon - d) * 10000) c.horizon (omega arith)
          (omega arith)),
  )
  | no q ↦ ground arith
]

-- The score is never more than the net signal, whatever the time.
pub decayed_score-le-net_score :
    (c : DecayConstants) (count : ℤ) (disputes last_activity now : ℕ)
    → decayed_score c count disputes last_activity now ≤ net_score count disputes
unfolding decayed_score
decayed_score-le-net_score c count disputes last now =
    ground (arith, decay_net-le c (net_score count disputes) (now - last - c.grace))

-- As time passes with no activity, the score of an agent never rises.
pub decayed_score_antitone :
    (c : DecayConstants) (count : ℤ) (disputes last_activity now later : ℕ)
    → now ≤ later
    → decayed_score c count disputes last_activity later
      ≤ decayed_score c count disputes last_activity now
unfolding decayed_score
decayed_score_antitone c count disputes last now later p = ground (
  arith,
  decay_net_mono c (net_score count disputes) (now - last - c.grace) (later - last - c.grace),
  decay_net-le c (net_score count disputes) (later - last - c.grace),
)

-- An active agent keeps its whole net signal until the grace has passed, and nothing is left of it
-- once the horizon has passed too.
pub decayed_score_ends :
    (c : DecayConstants) (count : ℤ) (disputes last_activity early late : ℕ)
    → 0 < last_activity
    → 0 < c.horizon
    → early ≤ last_activity + c.grace
    → last_activity + c.grace + c.horizon ≤ late
    → (decayed_score c count disputes last_activity early ≡ net_score count disputes)
      × (decayed_score c count disputes last_activity late ≡ 0)
unfolding decayed_score decay_net
decayed_score_ends c count disputes last early late h k p q = (ground arith, ground arith)
