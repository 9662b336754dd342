-- ===== src/RateLimit/Sweep.antt =====
-- Dropping idle buckets changes no answer: the limiter refines the specification.
use native.Mathlib.Nat.{mul-le-mul_right}
use mathlib.Core.Path.{ap₂, subst}
use bots_infra_be.Common.{
  ap, ◌∙◌, ℕ, ◌+◌, ◌-◌, ◌*◌, ◌≤◌, ◌≡◌, refl, Bool, true, false, String, str_eq, Option, none, some,
  List, [], ◌∷◌, arith, ltb, if◌then◌else◌, Bool-cases, Option-cases, inl, inr,
}
use bots_infra_be.Common.Dict
use bots_infra_be.RateLimit.{
  Bucket, RateLimiter, Request, Ascending, token, make, sweep, refill, take_token, allow, serve,
  last_time,
}
use bots_infra_be.RateLimit.Spec.{Buckets, full, update, admit, admit_all}

-- A bucket that is missing at time `t` stands for one that would be full by then.
abbrev Agrees : ℕ → ℕ → ℕ → Option Bucket → Bucket → Type 0
Agrees rate burst t none b = refill rate burst b t ≡ burst
Agrees rate burst t (some c) b = c ≡ b

pub record Refines (l : RateLimiter) (m : Buckets) (t : ℕ) : Type 0 where
  pub unique : Dict.Unique l.buckets
  pub agree : (key : String) → Agrees l.rate l.burst t (Dict.get l.buckets key) (m key)

-- The limits under which an idle bucket is full before it is dropped.
pub record IsSized (l : RateLimiter) : Type 0 where
  pub holds_token : token ≤ l.burst
  pub refills : l.burst ≤ 900000 * l.rate

Agrees-later :
    (rate burst t u : ℕ) (o : Option Bucket) (b : Bucket)
    → t ≤ u
    → Agrees rate burst t o b
    → Agrees rate burst u o b
unfolding refill
Agrees-later rate burst t u none b le h = grind arith
Agrees-later rate burst t u (some c) b le h = h

-- A bucket that `sweep` drops is full by then.
stale-full :
    (rate burst now : ℕ) (c b : Bucket)
    → burst ≤ 900000 * rate
    → c ≡ b
    → ltb (c.updated + 900000) now ≡ true
    → refill rate burst b now ≡ burst
unfolding refill
stale-full rate burst now c b h e stale = ground (arith, mul-le-mul_right rate idle)
  where
    idle : 900000 ≤ now - b.updated
    idle = ground arith

sweep_entry :
    (rate burst now : ℕ) (o : Option Bucket) (b : Bucket)
    → burst ≤ 900000 * rate
    → Agrees rate burst now o b
    → Agrees rate burst now
        (if (elim o [ none ↦ false | some c ↦ ltb (c.updated + 900000) now ]) then none else o)
        b
sweep_entry rate burst now none b h agree = agree
sweep_entry rate burst now (some c) b h agree = elim (Bool-cases (ltb (c.updated + 900000) now)) [
  | inl stale ↦ rw stale (stale-full rate burst now c b h agree stale)
  | inr live ↦ rw live agree
]

-- `_sweep` drops only buckets that stand for full ones.
sweep-Refines :
    (l : RateLimiter) (m : Buckets) (now : ℕ)
    → l.burst ≤ 900000 * l.rate
    → Refines l m now
    → Refines (sweep l now) m now
unfolding sweep
sweep-Refines l m now h r = elim (Bool-cases (ltb (now - l.last_sweep) 300000)) [
  | inl early ↦ rw early r
  | inr due ↦ rw due (record {
    unique = Dict.pop_all-Unique l.buckets stale r.unique;
    agree = λ key. rw (Dict.get-pop_all l.buckets stale key r.unique) (
        rw (Dict.elem-keys_where idle l.buckets key r.unique)
          (sweep_entry l.rate l.burst now (Dict.get l.buckets key) (m key) h (r.agree key)));
  })
]
  where
    idle : Bucket → Bool
    idle b = ltb (b.updated + 900000) now

    stale : List String
    stale = Dict.keys_where idle l.buckets

put_entry :
    (rate burst now : ℕ) (same : Bool) (o : Option Bucket) (b c : Bucket)
    → Agrees rate burst now o c
    → Agrees rate burst now (if same then some b else o) (if same then b else c)
put_entry rate burst now true o b c h = refl
put_entry rate burst now false o b c h = h

put-Refines :
    (l : RateLimiter) (m : Buckets) (key : String) (b : Bucket) (now : ℕ)
    → Refines l m now
    → Refines (record l { buckets = Dict.put l.buckets key b }) (update m key b) now
put-Refines l m key b now r = record {
  unique = Dict.put-Unique l.buckets key b r.unique;
  agree = λ j.
      rw (Dict.get-put l.buckets key j b)
        (put_entry l.rate l.burst now (str_eq key j) (Dict.get l.buckets j) b (m j) (r.agree j));
}

pub Refines-later :
    (l : RateLimiter) (m : Buckets) (t u : ℕ) → t ≤ u → Refines l m t → Refines l m u
Refines-later l m t u le r = record {
  unique = r.unique;
  agree = λ key. Agrees-later l.rate l.burst t u (Dict.get l.buckets key) (m key) le (r.agree key);
}

take_token-holds :
    (now : ℕ) (b : Bucket)
    → token ≤ b.tokens
    → take_token now b ≡ (true, record { tokens = b.tokens - token; updated = now })
unfolding take_token
take_token-holds now b h = ground arith

-- One call of `allow` answers as the specification does, and keeps the two in step.
pub allow-Refines :
    (l : RateLimiter) (m : Buckets) (key : String) (now : ℕ)
    → IsSized l
    → Refines l m now
    → ((allow l key now).0 ≡ (admit l.rate l.burst m key now).0)
      × Refines (allow l key now).1 (admit l.rate l.burst m key now).1 now
unfolding allow admit
allow-Refines l m key now h r = elim (Option-cases (Dict.get l.buckets key)) [
  | inl new ↦
      rw (new, allow)
        (rw (rw new at (r.agree key)) (
          rw (take_token-holds now (record { tokens = l.burst; updated = now }) h.holds_token) (
            refl,
            sweep-Refines _ _ now h.refills
                (put-Refines l m key (record { tokens = l.burst - token; updated = now }) now r),
          )))
  | inr (b, known) ↦
      rw (known, allow) (rw (← (rw known at (r.agree key))) (refl, put-Refines l m key _ now r))
]

-- `allow` leaves the limits alone.
pub allow-limits :
    (l : RateLimiter) (key : String) (now : ℕ)
    → ((allow l key now).1.rate ≡ l.rate) × ((allow l key now).1.burst ≡ l.burst)
unfolding allow sweep
allow-limits l key now = ground arith

pub serve-limits :
    (l : RateLimiter) (requests : List Request)
    → ((serve l requests).1.rate ≡ l.rate) × ((serve l requests).1.burst ≡ l.burst)
unfolding serve
serve-limits l [] = (refl, refl)
serve-limits l ((key, now) ∷ rest) =
    let (rates, bursts) = serve-limits (allow l key now).1 rest in
    (rates ∙ (allow-limits l key now).0, bursts ∙ (allow-limits l key now).1)

IsSized-allow : (l : RateLimiter) (key : String) (now : ℕ) → IsSized l → IsSized (allow l key now).1
IsSized-allow l key now h = record {
  holds_token = rw ((allow-limits l key now).1) h.holds_token;
  refills = rw ((allow-limits l key now).0, (allow-limits l key now).1) h.refills;
}

-- Along any run in time order the answers are the specification's, and the two end in step.
pub serve-Refines :
    (l : RateLimiter) (m : Buckets) (t : ℕ) (requests : List Request)
    → IsSized l
    → Refines l m t
    → Ascending t requests
    → ((serve l requests).0 ≡ (admit_all l.rate l.burst m requests).0)
      × Refines (serve l requests).1 (admit_all l.rate l.burst m requests).1 (last_time t requests)
      × IsSized (serve l requests).1
unfolding serve admit_all
serve-Refines l m t [] h r a = (refl, r, h)
serve-Refines l m t ((key, now) ∷ rest) h r a =
    let step = allow-Refines l m key now h (Refines-later l m t now a.0 r) in
    let l' = (allow l key now).1 in
    let ih =
      serve-Refines l' (admit l.rate l.burst m key now).1 now rest (IsSized-allow l key now h)
        step.1 a.1 in
    let same_limits : admit_all l'.rate l'.burst (admit l.rate l.burst m key now).1 rest
        ≡ admit_all l.rate l.burst (admit l.rate l.burst m key now).1 rest =
      λ i.
        admit_all ((allow-limits l key now).0 i) ((allow-limits l key now).1 i)
          (admit l.rate l.burst m key now).1 rest in
    (
      ap₂ ◌∷◌ step.0 (ih.0 ∙ ap (λ p. p.0) same_limits),
      subst (λ p. Refines (serve l' rest).1 p.1 (last_time now rest)) same_limits ih.1,
      ih.2,
    )

pub make-Refines :
    (rate burst start t : ℕ) → Refines (make rate burst start) (full (burst * token)) t
unfolding make Dict.get refill
make-Refines rate burst start t = record { unique = tt; agree = λ key. omega arith }

pub make-IsSized :
    (rate burst start : ℕ) → 1 ≤ burst → burst ≤ 15 * rate → IsSized (make rate burst start)
unfolding make
make-IsSized rate burst start one fits = record { holds_token = omega arith; refills = omega arith }

-- From a fresh limiter whose burst is at least one token and is refilled within the 15 minutes that
-- make a bucket idle, sweeping is invisible: along any sequence of calls in time order, `allow`
-- gives the answers of textbook token buckets, one for each key, that are never dropped.
pub serve-eq-admit_all :
    (rate burst start : ℕ) (requests : List Request)
    → 1 ≤ burst
    → burst ≤ 15 * rate
    → Ascending start requests
    → (serve (make rate burst start) requests).0
      ≡ (admit_all rate (burst * token) (full (burst * token)) requests).0
unfolding make
serve-eq-admit_all rate burst start requests one fits a =
    (serve-Refines (make rate burst start) (full (burst * token)) start requests
      (make-IsSized rate burst start one fits) (make-Refines rate burst start start) a).0
