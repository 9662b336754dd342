-- ===== src/Chat/Own.antt =====
-- The conversation that `get_or_create_conversation` gives a turn.
use mathlib.Core.List.{◌++◌}
use bots_infra_be.Common.{
  Option-cases, eq_iff, ap, All, ℕ, ◌≡◌, ◌⊎◌, inl, inr, refl, true, false, String, none, some, List,
  [], ◌∷◌, arith, Bool-cases,
}
use bots_infra_be.Tenants.{}
use bots_infra_be.Tenants.Resolve.{ResolvedTenant}
use bots_infra_be.Chat.{Conversation, Envelope}
use bots_infra_be.Chat.Turn.{is_session, find_conversation, get_or_create_conversation}
use bots_infra_be.Chat.Prepare.{}

-- A conversation of the tenant and of the session: one that there was, or else a new one.
abbrev pub IsOwn : ℕ → String → List Conversation → ℕ → Conversation → Type 0
IsOwn fresh session cs tenant c =
    (is_session tenant session c ≡ true)
    × (((before : List Conversation) × (after : List Conversation) × (cs ≡ before ++ c ∷ after))
        ⊎ ((c.id ≡ fresh) × All (λ d. is_session tenant session d ≡ false) cs))

find_conversation-is_session :
    (tenant : ℕ) (session : String) (cs : List Conversation) (c : Conversation)
    → find_conversation tenant session cs ≡ some c
    → is_session tenant session c ≡ true
unfolding find_conversation
find_conversation-is_session tenant session [] c h = ground arith
find_conversation-is_session tenant session (d ∷ cs) c h =
    ground (arith, h, find_conversation-is_session tenant session cs c)

find_conversation-split :
    (tenant : ℕ) (session : String) (cs : List Conversation) (c : Conversation)
    → find_conversation tenant session cs ≡ some c
    → (before : List Conversation) × (after : List Conversation) × (cs ≡ before ++ c ∷ after)
unfolding find_conversation
find_conversation-split tenant session [] c h = absurd (ground arith)
find_conversation-split tenant session (d ∷ cs) c h =
    elim (Bool-cases (is_session tenant session d)) [
      | inl here ↦ ([], cs, ap (λ x. x ∷ cs) (some-inj (rw here at h)))
      | inr later ↦
          let (before, after, split) =
            find_conversation-split tenant session cs c (rw later at h) in
          (d ∷ before, after, ap (λ xs. d ∷ xs) split)
    ]
  where
    some-inj : {x y : Conversation} → some x ≡ some y → x ≡ y
    some-inj e = ground (arith, e)

find_conversation-none :
    (tenant : ℕ) (session : String) (cs : List Conversation)
    → find_conversation tenant session cs ≡ none
    → All (λ d. is_session tenant session d ≡ false) cs
unfolding find_conversation
find_conversation-none tenant session [] h = tt
find_conversation-none tenant session (d ∷ cs) h = elim (Bool-cases (is_session tenant session d)) [
  | inl here ↦ absurd (ground (arith, h, here))
  | inr later ↦ (later, find_conversation-none tenant session cs (rw later at h))
]

-- The conversation of a turn is one of the tenant and of the session.
pub get_or_create_conversation-IsOwn :
    (fresh : ℕ) (resolved : ResolvedTenant) (e : Envelope) (ip : String) (cs : List Conversation)
    → IsOwn fresh e.session_id cs resolved.tenant.id
        (get_or_create_conversation fresh resolved e ip cs).0
unfolding get_or_create_conversation
get_or_create_conversation-IsOwn fresh resolved e ip cs =
    let tenant = resolved.tenant.id in
    elim (Option-cases (find_conversation tenant e.session_id cs)) [
      | inl absent ↦
          rw (absent, get_or_create_conversation)
            (
              ground (arith, eq_iff e.session_id e.session_id),
              inr (refl, find_conversation-none tenant e.session_id cs absent),
            )
      | inr (c, found) ↦
          rw (found, get_or_create_conversation)
            (
              find_conversation-is_session tenant e.session_id cs c found,
              inl (find_conversation-split tenant e.session_id cs c found),
            )
    ]
