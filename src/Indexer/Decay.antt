-- ===== src/Indexer/Decay.antt =====
-- `decayedScore` and `computeIndexedScore` of packages/backend/src/indexer.ts. The quotients of the
-- source are doubles under Math.floor, which are the quotients of ℕ as long as the products stay
-- below 2^53.
pub mod Bounds
use taop_protocol.Prelude.{
  ℕ, ◌+◌, ◌-◌, ◌*◌, ◌/◌, ◌≤◌, ◌<◌, ◌≡◌, arith, leb, nat_beq, ◌||◌, if◌then◌else◌,
}
use taop_protocol.Prelude.Int.{ℤ, pos, ◌-ℤ◌}
use taop_protocol.Index.Alerts.{floor_ℕ}

-- DECAY_GRACE and DECAY_HORIZON
pub record DecayConstants : Type 0 where
  pub grace : ℕ
  pub horizon : ℕ

-- The values before `loadDecayConstants`.
abbrev pub default_decay : DecayConstants
default_decay = record { grace = 30 * 24 * 3600; horizon = 150 * 24 * 3600 }

-- Math.max(0, count - disputes)
unfoldable pub net_score : ℤ → ℕ → ℕ
unfolding ◌-ℤ◌
net_score count disputes = floor_ℕ (count -ℤ pos disputes)

-- The part after the grace: `decayed` seconds of the horizon have gone.
unfoldable pub decay_net : DecayConstants → ℕ → ℕ → ℕ
decay_net c net decayed =
    if leb c.horizon decayed
    then 0
    else let bps = (c.horizon - decayed) * 10000 / c.horizon in net * bps / 10000

-- Where `now` is before the last activity, `elapsed` is negative, and so within the grace.
unfoldable pub decayed_score : DecayConstants → ℤ → ℕ → ℕ → ℕ → ℕ
decayed_score c count disputes last_activity now =
    let net = net_score count disputes in
    if nat_beq net 0 || nat_beq last_activity 0
    then net
    else let elapsed = now - last_activity in
      if leb elapsed c.grace then net else decay_net c net (elapsed - c.grace)
