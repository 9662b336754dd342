-- ===== src/Retention.antt =====
-- Data retention: app/services/retention.py. `redact` is in Redact, the loop of bounded batches here,
-- and `purge_tenant` and `erase_tenant`, which both run it, in Purge and Erase. Times are seconds.
pub mod Redact
pub mod Export
pub mod Purge
pub mod Trimmed
pub mod Complete
pub mod Erase
mod Examples
use bots_infra_be.Common.{
  ℕ, zero, suc, ◌+◌, ◌-◌, ◌*◌, ◌≡◌, Bool, true, false, min, arith, ltb, if◌then◌else◌, Bool-cases,
  inl, inr,
}

-- `BATCH_SIZE`
abbrev pub batch_size : ℕ
batch_size = 500

-- What a loop of batches did: the rows, the batches, and whether `else` ran, as no batch was short.
pub record Drained {ℓ} (S : Type ℓ) : Type ℓ where
  pub deleted : ℕ
  pub batches : ℕ
  pub at_ceiling : Bool
  pub state : S

module _ {ℓ} {S : Type ℓ} (batch : S → ℕ × S) where
  -- `for _ in range(max_batches)`: a batch in a transaction of its own, and `break` after a short one.
  unfoldable pub drain : ℕ → S → Drained S
  drain zero s = record { deleted = 0; batches = 0; at_ceiling = true; state = s }
  drain (suc tries) s =
      let (removed, s') = batch s in
      let rest = drain tries s' in
      if ltb removed batch_size
      then record { deleted = removed; batches = 1; at_ceiling = false; state = s' }
      else record {
        deleted = removed + rest.deleted;
        batches = suc rest.batches;
        at_ceiling = rest.at_ceiling;
        state = rest.state;
      }

  -- If each batch keeps an invariant and removes what is left, or a full batch of it, the loop keeps the
  -- invariant and removes what there is, or full batches as many as it may run.
  pub drain-deleted {κ} :
      (P : S → Type κ) (size : S → ℕ)
      → ((s : S)
          → P s
          → P (batch s).1
            × ((batch s).0 ≡ min batch_size (size s))
            × (size (batch s).1 ≡ size s - batch_size))
      → (tries : ℕ) (s : S) → P s
      → P (drain tries s).state
        × ((drain tries s).deleted ≡ min (tries * batch_size) (size s))
        × (size (drain tries s).state ≡ size s - tries * batch_size)
  unfolding drain
  drain-deleted P size h zero s p = (p, omega arith, omega arith)
  drain-deleted P size h (suc tries) s p =
      let (p', removed, left) = h s p in
      let (p'', rest, less) = drain-deleted P size h tries (batch s).1 p' in
      elim (Bool-cases (ltb (batch s).0 batch_size)) [
        | inl short ↦ rw short (p', ground (arith, removed), ground (arith, removed, left))
        | inr full ↦
            rw full (p'', ground (arith, removed, left, rest), ground (arith, removed, left, less))
      ]
