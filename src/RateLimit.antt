-- ===== src/RateLimit.antt =====
-- The token buckets of app/services/ratelimit.py.
--
-- Tokens are floats in the source. Here a token is 60000 units and time is in milliseconds, so that
-- `(now - updated) * rate_per_min / 60` tokens are `(now - updated) * rate_per_min` units, with no
-- rounding. `time.monotonic()` is the argument `now`. With `burst` 0 the source stores -1 tokens
-- and the model 0: both are below one token after every refill, which the burst caps.
pub mod Spec
pub mod Sweep
pub mod Bound
mod Examples
use bots_infra_be.Common.{
  ℕ, ◌+◌, ◌-◌, ◌*◌, ◌≤◌, Bool, true, false, String, none, some, List, [], ◌∷◌, min, ltb,
  if◌then◌else◌,
}
use bots_infra_be.Common.Dict.{Dict, get, put, pop_all, keys_where}

pub record Bucket : Type 0 where
  pub tokens : ℕ
  pub updated : ℕ

pub record RateLimiter : Type 0 where
  pub rate : ℕ
  pub burst : ℕ
  pub buckets : Dict Bucket
  pub last_sweep : ℕ

-- One token, in units.
abbrev pub token : ℕ
token = 60000

-- `__init__`, called at time `now`.
unfoldable pub make : ℕ → ℕ → ℕ → RateLimiter
make rate_per_min burst now = record {
  rate = rate_per_min;
  burst = burst * token;
  buckets = [];
  last_sweep = now;
}

-- `_sweep`, which collects the idle keys and pops each of them.
pub sweep : RateLimiter → ℕ → RateLimiter
sweep l now = if ltb (now - l.last_sweep) 300000 then l else record l {
  last_sweep = now;
  buckets = pop_all l.buckets (keys_where (λ b. ltb (b.updated + 900000) now) l.buckets);
}

-- `min(self.burst, bucket.tokens + (now - bucket.updated) * self.rate)`
pub refill : ℕ → ℕ → Bucket → ℕ → ℕ
refill rate burst b now = min burst (b.tokens + (now - b.updated) * rate)

-- The branch of `allow` for a known bucket: the answer, and the bucket that is left.
pub take_token : ℕ → Bucket → Bool × Bucket
take_token now b =
    if ltb b.tokens token
    then (false, record { tokens = b.tokens; updated = now })
    else (true, record { tokens = b.tokens - token; updated = now })

unfoldable pub allow : RateLimiter → String → ℕ → Bool × RateLimiter
unfolding sweep refill take_token
allow l key now = elim (get l.buckets key) [
  | none ↦ (
    true,
    sweep
        (record l {
          buckets = put l.buckets key (record { tokens = l.burst - token; updated = now });
        })
        now,
  )
  | some b ↦
      let (answer, b') =
        take_token now (record { tokens = refill l.rate l.burst b now; updated = now }) in
      (answer, record l { buckets = put l.buckets key b' })
]

-- A request: the key and the time of the call.
abbrev pub Request : Type 0
Request = String × ℕ

-- The calls of `allow` one after the other: the answers and the limiter that is left.
pub serve : RateLimiter → List Request → List Bool × RateLimiter
serve l [] = ([], l)
serve l ((key, now) ∷ rest) =
    let (answer, l') = allow l key now in
    let (answers, l'') = serve l' rest in (answer ∷ answers, l'')

-- The clock never goes back.
abbrev pub Ascending : ℕ → List Request → Type 0
Ascending t [] = Unit
Ascending t ((key, now) ∷ rest) = (t ≤ now) × Ascending now rest

-- The time of the last request, or `t` if there is none.
abbrev pub last_time : ℕ → List Request → ℕ
last_time t [] = t
last_time t ((key, now) ∷ rest) = last_time now rest

-- `per_session`, `per_ip` and `per_tenant`, made at time 0.
abbrev pub per_session : RateLimiter
unfolding make
per_session = make 12 6 0

abbrev pub per_ip : RateLimiter
unfolding make
per_ip = make 30 15 0

abbrev pub per_tenant : RateLimiter
unfolding make
per_tenant = make 300 100 0
