-- ===== src/Console/Atomic.antt =====
-- How a request ends: with a change, for the console's key alone, or with an error and no change.
use bots_infra_be.Common.{◌≡◌, refl, String, Option, none, some, ap}
use bots_infra_be.Tenants.{Tenant}
use bots_infra_be.Console.{
  State, Setup, Answer, auth, authorized, after_auth, tenant_or_404, after_session, session_scope,
}

-- An answer with what it makes of the state; an error leaves the state as it is.
abbrev pub Ends : {A S : Type 0} → (S → Type 0) → S → Answer A × S → Type 0
Ends Q s (Answer.ok a, s') = Q s'
Ends Q s (Answer.http status detail, s') = s' ≡ s
Ends Q s (Answer.raised e, s') = s' ≡ s

pub authorized-Ends :
    {A S : Type 0} (Q : S → Type 0) (setup : Setup) (key : Option String) (s : S)
    → (handler : S → Answer A × S) → Ends Q s (handler s)
    → Ends (λ s'. (auth setup key ≡ Answer.ok tt) × Q s') s (authorized setup key handler s)
unfolding authorized
authorized-Ends {A} {S} Q setup key s handler h = by_auth (auth setup key) refl
  where
    accepted :
        (r : Answer A × S)
        → Ends Q s r
        → auth setup key ≡ Answer.ok tt
        → Ends (λ s'. (auth setup key ≡ Answer.ok tt) × Q s') s r
    accepted (Answer.ok a, s') q e = (e, q)
    accepted (Answer.http status detail, s') q e = q
    accepted (Answer.raised x, s') q e = q

    by_auth :
        (a : Answer Unit)
        → auth setup key ≡ a
        → Ends (λ s'. (auth setup key ≡ Answer.ok tt) × Q s') s (after_auth handler s a)
    by_auth (Answer.ok tt) e = accepted (handler s) h e
    by_auth (Answer.http status detail) e = refl
    by_auth (Answer.raised x) e = refl

pub tenant_or_404-Ends :
    {A S : Type 0} (Q : S → Type 0) (row : Option Tenant) (handler : Tenant → S → Answer A × S)
    (s : S)
    → ((t : Tenant) → row ≡ some t → Ends Q s (handler t s))
    → Ends Q s (tenant_or_404 row handler s)
unfolding tenant_or_404
tenant_or_404-Ends Q none handler s h = refl
tenant_or_404-Ends Q (some t) handler s h = h t refl

abbrev restore : State → State → State
restore s x = record x { database = s.database }

pub session_scope-Ends :
    {A : Type 0} (Q : State → Type 0) (block : State → Answer A × State) (s : State)
    → Ends Q s (block s)
    → Ends Q s (session_scope block s)
unfolding session_scope
session_scope-Ends {A} Q block s h = scoped (block s) h
  where
    scoped : (r : Answer A × State) → Ends Q s r → Ends Q s (after_session s r)
    scoped (Answer.ok a, s') h = h
    scoped (Answer.http status detail, s') h = ap (restore s) h
    scoped (Answer.raised x, s') h = ap (restore s) h
