-- ===== src/Server/Gate/Queries.antt =====
-- The numbers that packages/backend/src/server.ts reads from a query string and the environment.
use taop_protocol.Prelude.{ℕ, ◌≤◌, arith, Text}
use taop_protocol.Prelude.Int.{pos, negsuc}
use taop_protocol.Index.Alerts.{Number, finite, not_finite}
use taop_protocol.Server.Gate.{QueryValue, absent, single, nested, int_query, clamp_query, port_of}

clamp_query-within :
    (fallback least most : ℕ) (n : Number)
    → least ≤ fallback
    → fallback ≤ most
    → (least ≤ clamp_query fallback least most n) × (clamp_query fallback least most n ≤ most)
clamp_query-within fallback least most not_finite lo hi = (lo, hi)
clamp_query-within fallback least most (finite (pos n) fraction) lo hi = omega arith
clamp_query-within fallback least most (finite (negsuc n) fraction) lo hi = omega arith

-- Whatever a query parameter holds, the number read lies between the least and the most, where the
-- fallback does.
pub int_query-within :
    (number_of_text : Text → Number) (value : QueryValue) (fallback least most : ℕ)
    → least ≤ fallback
    → fallback ≤ most
    → (least ≤ int_query number_of_text value fallback least most)
      × (int_query number_of_text value fallback least most ≤ most)
unfolding int_query
int_query-within number_of_text absent fallback least most lo hi = (lo, hi)
int_query-within number_of_text nested fallback least most lo hi = (lo, hi)
int_query-within number_of_text (single value) fallback least most lo hi =
    clamp_query-within fallback least most (number_of_text value) lo hi

pub port_of-within : (n : Number) → (1 ≤ port_of n) × (port_of n ≤ 65535)
unfolding port_of
port_of-within not_finite = omega arith
port_of-within (finite (negsuc n) fraction) = omega arith
port_of-within (finite (pos n) fraction) = ground arith
