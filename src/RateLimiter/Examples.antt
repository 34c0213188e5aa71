-- ===== src/RateLimiter/Examples.antt =====
-- The limiter of the REST endpoints with its defaults: 10 requests per second, bursts of 30, and a tick of
-- a tenth of a second, so that a token has one part for each tick.
use ai_agent_starter_kit.RateLimiter.{RateLimiterConfig, RateLimiter}
use ai_agent_starter_kit.RateLimiter.Rate.{Request, elapsed, admitted, admitted_bounded}
use ai_agent_starter_kit.Common.{
  ◌+◌, ◌*◌, ◌≤◌, ◌≡◌, refl, ◌≢◌, true, List, [], ◌∷◌, arith, Text, codes,
}

abbrev rest : RateLimiterConfig
rest = record {
  token = 1;
  requests_per_second = 1;
  burst = 30;
  cleanup_interval = 3000;
  enabled = true;
}

abbrev tight : RateLimiterConfig
tight = record rest { burst = 2 }

abbrev no_buckets : RateLimiter
no_buckets = record { buckets = []; last_cleanup = 0 }

abbrev client : Text
client = codes "10.0.0.1"

-- Four requests at once and one five ticks later.
abbrev spurt : List Request
spurt = (10, client) ∷ (0, client) ∷ (0, client) ∷ (0, client) ∷ (5, client) ∷ []

spurt_admits_three : admitted tight client 0 no_buckets spurt ≡ 3
unfolding admitted
spurt_admits_three = refl

admitted_bounded_example :
    tight.token * admitted tight client 0 no_buckets spurt
    ≤ tight.token * tight.burst + elapsed spurt * tight.requests_per_second
admitted_bounded_example =
    admitted_bounded tight client 0 no_buckets spurt refl (omega arith) (tt, tt)

abbrev one_left : RateLimiter
one_left = record {
  buckets = (client, record { tokens = 1; last_refill = 7; burst = 2 }) ∷ [];
  last_cleanup = 0;
}

other_client-ne : codes "10.0.0.2" ≢ client
other_client-ne e = ground (arith, e)
