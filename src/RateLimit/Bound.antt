-- ===== src/RateLimit/Bound.antt =====
-- How many calls the limiter admits in a window of time.
use native.Mathlib.Nat.{mul-le-mul_right, add-mul}
use bots_infra_be.Common.{
  ℕ, ◌+◌, ◌-◌, ◌*◌, ◌≤◌, ◌≡◌, ap, Bool, String, str_eq, eq_iff, List, [], ◌∷◌, arith, if◌then◌else◌,
  Bool-cases, inl, inr,
}
use bots_infra_be.RateLimit.{
  Bucket, RateLimiter, Request, Ascending, token, make, refill, take_token, serve, last_time,
}
use bots_infra_be.RateLimit.Spec.{Buckets, full, admit, admit_all}
use bots_infra_be.RateLimit.Sweep.{
  IsSized, Refines, Refines-later, serve-limits, serve-Refines, make-Refines, make-IsSized,
}

last_time-le : (t : ℕ) (requests : List Request) → Ascending t requests → t ≤ last_time t requests
last_time-le t [] a = omega arith
last_time-le t ((key, now) ∷ rest) a = omega (arith, last_time-le now rest a.1)

-- How many of the answers to `key` are yes.
abbrev pub count_for : String → List Request → List Bool → ℕ
count_for key [] answers = 0
count_for key (r ∷ rest) [] = 0
count_for key ((j, now) ∷ rest) (answer ∷ answers) =
    (if str_eq j key then if answer then 1 else 0 else 0) + count_for key rest answers

-- What the bucket of `key` holds at time `t`.
abbrev held : ℕ → ℕ → Buckets → String → ℕ → ℕ
held rate burst m key t = refill rate burst (m key) t

refill-later :
    (rate burst t u : ℕ) (b : Bucket)
    → t ≤ u
    → refill rate burst b u ≤ refill rate burst b t + (u - t) * rate
unfolding refill
refill-later rate burst t u b le =
    ground (arith, mul-le-mul_right rate split, add-mul (u - t) (t - b.updated) rate)
  where
    split : u - b.updated ≤ (u - t) + (t - b.updated)
    split = omega arith

-- The bucket that a call leaves holds, at that time, what the answer left of the old one.
take_token_pays :
    (rate burst now : ℕ) (b : Bucket)
    → (if (take_token now (record { tokens = refill rate burst b now; updated = now })).0
            then 1
            else 0)
          * token
        + refill rate burst
            (take_token now (record { tokens = refill rate burst b now; updated = now })).1
            now
      ≤ refill rate burst b now
unfolding take_token refill
take_token_pays rate burst now b = ground arith

-- A call pays for its answer out of the bucket of its key.
admit_pays :
    (rate burst : ℕ) (m : Buckets) (j key : String) (now : ℕ)
    → (if str_eq j key then if (admit rate burst m j now).0 then 1 else 0 else 0) * token
        + held rate burst (admit rate burst m j now).1 key now
      ≤ held rate burst m key now
unfolding admit
admit_pays rate burst m j key now = elim (Bool-cases (str_eq j key)) [
  | inl same ↦ rw same (rw (← (eq_iff j key).0 same) (take_token_pays rate burst now (m j)))
  | inr other ↦ rw other (omega arith)
]

ruleset paying = (arith, admit_pays, refill-later)

-- Over a run the bucket of `key` pays for every yes, and gains at most the rate.
admit_all_pays :
    (rate burst : ℕ) (m : Buckets) (key : String) (t end : ℕ) (requests : List Request)
    → Ascending t requests
    → last_time t requests ≤ end
    → count_for key requests (admit_all rate burst m requests).0 * token
      ≤ held rate burst m key t + (end - t) * rate
unfolding admit_all
admit_all_pays rate burst m key t end [] a h = omega arith
admit_all_pays rate burst m key t end ((j, now) ∷ rest) a h = ground (
  arith,
  admit_all_pays rate burst (admit rate burst m j now).1 key now end rest a.1 h,
  admit_pays rate burst m j key now,
  refill-later rate burst t now (m key) a.0,
  add-mul (now - t) (end - now) rate,
  ap (λ (d : ℕ). d * rate) split,
)
  where
    split : (now - t) + (end - now) ≡ end - t
    split = omega (arith, last_time-le now rest a.1, h)

held-le-burst :
    (rate burst : ℕ) (m : Buckets) (key : String) (t : ℕ) → held rate burst m key t ≤ burst
unfolding refill
held-le-burst rate burst m key t = omega arith

window-le :
    (l : RateLimiter) (m : Buckets) (t end : ℕ) (key : String) (window : List Request)
    → IsSized l
    → Refines l m t
    → Ascending t window
    → last_time t window ≤ end
    → count_for key window (serve l window).0 * token ≤ l.burst + (end - t) * l.rate
window-le l m t end key window h r a until = rw ((serve-Refines l m t window h r a).0) (
    omega (
      arith,
      admit_all_pays l.rate l.burst m key t end window a until,
      held-le-burst l.rate l.burst m key t,
    ))

-- Whatever a limiter has served before, in a window from `t` to `end` it says yes to one key at most
-- `burst + rate_per_min * (end - t) / 60` times (here in units, times in milliseconds), if its burst
-- is at least one token and is refilled within the 15 minutes that make a bucket idle, and the
-- clock never goes back.
pub count_for-serve-le :
    (rate burst start t end : ℕ) (key : String) (before window : List Request)
    → 1 ≤ burst
    → burst ≤ 15 * rate
    → Ascending start before
    → last_time start before ≤ t
    → Ascending t window
    → last_time t window ≤ end
    → count_for key window (serve (serve (make rate burst start) before).1 window).0 * token
      ≤ burst * token + (end - t) * rate
count_for-serve-le rate burst start t end key before window one fits a since b until =
    let l = make rate burst start in
    let s =
      serve-Refines l (full (burst * token)) start before (make-IsSized rate burst start one fits)
        (make-Refines rate burst start start) a in
    let w =
      window-le (serve l before).1 _ t end key window s.2 (Refines-later _ _ _ t since s.1) b
        until in
    unfold make in
    ground
      (arith, w, serve-limits l before, ap (λ (r : ℕ). (end - t) * r) ((serve-limits l before).0))
