-- ===== src/Whatsapp/Once.antt =====
-- A message is answered once, and only where it is signed for the tenant of its route.
use mathlib.Core.List.{◌++◌}
use bots_infra_be.Common.{
  ℕ, ◌≡◌, ◌⊎◌, inl, inr, refl, Bool, true, false, ◌||◌, not, leb, length, if◌then◌else◌, String,
  str_eq, Option, none, some, List, [], ◌∷◌, All, All-map, arith, if-intro, eq_iff,
}
use bots_infra_be.Common.Dict.{elem}
use bots_infra_be.Common.Distinct.{Distinct, elem-append}
use bots_infra_be.Graph
use bots_infra_be.Language
use bots_infra_be.RateLimit.{RateLimiter}
use bots_infra_be.Tenants.{Tenant, TenantError, Platform}
use bots_infra_be.Tenants.Resolve.{ResolvedTenant, Outcome, ok, raised, Cache}
use bots_infra_be.Chat.{Envelope, Database, TurnContext}
use bots_infra_be.Whatsapp.{
  Route, Delivery, Twilio, State, Reply, silent, forbidden, failed, turned, after_signature,
  valid_signature, route_of, channel_of, finish, after_open, after_check, after_resolve, run_turn,
  after_tenant_limit, after_sender_limit, dedupe, authorise, twilio_inbound,
}

All-elem : (xs : List String) → All (λ x. elem x xs ≡ true) xs
All-elem [] = tt
All-elem (x ∷ xs) = (
  ground (arith, eq_iff x x),
  All-map _ _ (λ y (e : elem y xs ≡ true). ground (arith, e)) xs (All-elem xs),
)

module _ (p : Platform) (words : Language.Texts) (tw : Twilio)
    (turn : TurnContext → Envelope → Option (Graph.AgentState × String)) where
  module _ (d : Delivery) where
    -- What comes after the insert leaves the ids that were seen alone.
    finish-seen :
        (ctx : TurnContext) (st : State) (o : Option (Graph.AgentState × String))
        → (finish p words tw turn d ctx st o).1.seen ≡ st.seen
    finish-seen ctx st none = refl
    finish-seen ctx st (some (final, reply)) = refl

    after_open-seen :
        (t : Tenant) (st : State) (o : Outcome TurnContext × Database)
        → (after_open p words tw turn d t st o).1.seen ≡ st.seen
    unfolding after_open
    after_open-seen t st (raised e, db) = refl
    after_open-seen t st (ok ctx, db) = finish-seen ctx (record st { db = db }) _

    after_check-seen :
        (resolved : ResolvedTenant) (st : State) (o : Option TenantError × Tenant)
        → (after_check p words tw turn d resolved st o).1.seen ≡ st.seen
    unfolding after_check
    after_check-seen resolved st (some e, t) = refl
    after_check-seen resolved st (none, t) = after_open-seen t st _

    after_resolve-seen :
        (st : State) (o : Outcome ResolvedTenant × Cache)
        → (after_resolve p words tw turn d st o).1.seen ≡ st.seen
    unfolding after_resolve
    after_resolve-seen st (raised e, cache) = refl
    after_resolve-seen st (ok resolved, cache) =
        after_check-seen resolved (record st { proc = record st.proc { cache = cache } }) _

    run_turn-seen :
        (tenant : ℕ) (st : State) → (run_turn p words tw turn d tenant st).1.seen ≡ st.seen
    unfolding run_turn
    run_turn-seen tenant st =
        if-intro (λ (o : Reply × State). o.1.seen ≡ st.seen) (str_eq d.body "") _ _ (λ blank. refl)
          (λ text. after_resolve-seen st _)

    after_tenant_limit-seen :
        (tenant : ℕ) (st : State) (o : Bool × RateLimiter)
        → (after_tenant_limit p words tw turn d tenant st o).1.seen ≡ st.seen
    unfolding after_tenant_limit
    after_tenant_limit-seen tenant st (false, l) = refl
    after_tenant_limit-seen tenant st (true, l) =
        run_turn-seen tenant (record st { proc = record st.proc { per_tenant = l } })

    after_sender_limit-seen :
        (tenant : ℕ) (st : State) (o : Bool × RateLimiter)
        → (after_sender_limit p words tw turn d tenant st o).1.seen ≡ st.seen
    unfolding after_sender_limit
    after_sender_limit-seen tenant st (false, l) = refl
    after_sender_limit-seen tenant st (true, l) =
        after_tenant_limit-seen tenant (record st { proc = record st.proc { per_session = l } }) _

    -- The id is new, and recorded.
    abbrev pub IsNew : State → State → Type 0
    IsNew st st' = (elem d.sid st.seen ≡ false) × (st'.seen ≡ st.seen ++ d.sid ∷ [])

    -- The request carries the signature of the tenant that its address is routed to.
    abbrev pub IsSigned : State → Type 0
    IsSigned st =
        (r : Route) × (route_of (channel_of p words tw turn d) d.to_address st.routes ≡ some r)
        × (valid_signature tw (tw.auth_token r.tenant) d.params d.signature ≡ some true)

    -- The reply does not say that a turn was opened.
    abbrev pub IsQuiet : Reply → Type 0
    IsQuiet (turned text) = ⊥
    IsQuiet _ = Unit

    -- Nothing at all changes, or the id is new and the request signed.
    abbrev pub IsHandled : State → Reply × State → Type 0
    IsHandled st (reply, st') = ((st' ≡ st) × IsQuiet reply) ⊎ (IsNew st st' × IsSigned st)

    dedupe-IsHandled :
        (tenant : ℕ) (st : State) → IsSigned st → IsHandled st (dedupe p words tw turn d tenant st)
    unfolding dedupe
    dedupe-IsHandled tenant st signed =
        if-intro (IsHandled st) (elem d.sid st.seen) _ _ (λ seen. inl (refl, tt))
          (λ new. inr (
            (new, after_sender_limit-seen tenant (record st { seen = st.seen ++ d.sid ∷ [] }) _),
            signed,
          ))

    after_signature-IsHandled :
        (r : Route) (st : State)
        → route_of (channel_of p words tw turn d) d.to_address st.routes ≡ some r
        → (o : Option Bool) → valid_signature tw (tw.auth_token r.tenant) d.params d.signature ≡ o
        → IsHandled st (after_signature p words tw turn d r.tenant st o)
    unfolding after_signature
    after_signature-IsHandled r st e none valid = inl (refl, tt)
    after_signature-IsHandled r st e (some false) valid = inl (refl, tt)
    after_signature-IsHandled r st e (some true) valid = dedupe-IsHandled r.tenant st (r, e, valid)

    authorise-IsHandled :
        (st : State) (o : Option Route)
        → route_of (channel_of p words tw turn d) d.to_address st.routes ≡ o
        → IsHandled st (authorise p words tw turn d st o)
    unfolding authorise
    authorise-IsHandled st none e = inl (refl, tt)
    authorise-IsHandled st (some r) e = after_signature-IsHandled r st e _ refl

    -- A request either changes nothing at all, neither the tables nor the limiters nor the ids that were
    -- seen, and is not answered by a turn; or its message id is new, and recorded, and it carries the
    -- signature of the tenant that its address is routed to.
    pub twilio_inbound-IsHandled : (st : State) → IsHandled st (twilio_inbound p words tw turn d st)
    unfolding twilio_inbound
    twilio_inbound-IsHandled st =
        if-intro (IsHandled st)
          (str_eq d.to_address "" || str_eq d.from_address "" || str_eq d.sid "") _ _
          (λ partial. inl (refl, tt)) (λ complete. authorise-IsHandled st _ refl)

  abbrev pub is_turned : Reply → Bool
  is_turned (turned text) = true
  is_turned _ = false

  -- What a turn leaves: a reply of it, or a message more in the table.
  abbrev pub has_run : State → Reply × State → Bool
  has_run st (reply, st') =
      is_turned reply || not (leb (length st'.db.messages) (length st.db.messages))

  -- The ids of the deliveries that a turn was run for, in their order, one delivery after the other.
  abbrev pub if_run : Bool → String → List String → List String
  if_run ran sid sids = if ran then sid ∷ sids else sids

  abbrev pub answered : List Delivery → State → List String
  answered [] st = []
  answered (d ∷ ds) st =
      let o = twilio_inbound p words tw turn d st in
      let rest = answered ds o.1 in if_run (has_run st o) d.sid rest

  idle-has_run :
      (d : Delivery) (st : State) (o : Reply × State)
      → o.1 ≡ st
      → IsQuiet d o.0
      → has_run st o ≡ false
  idle-has_run d st (turned text, st') same quiet = absurd quiet
  idle-has_run d st (silent, st') same quiet = rw same (ground arith)
  idle-has_run d st (forbidden, st') same quiet = rw same (ground arith)
  idle-has_run d st (failed, st') same quiet = rw same (ground arith)

  answered-new_step :
      (d : Delivery) (st : State) (o : Reply × State) (rest : List String) (sid : String)
      → IsHandled d st o
      → elem sid st.seen ≡ true
      → (elem sid o.1.seen ≡ true → elem sid rest ≡ false)
      → elem sid (if_run (has_run st o) d.sid rest) ≡ false
  answered-new_step d st o rest sid (inl (same, quiet)) h absent =
      rw (idle-has_run d st o same quiet) (absent (rw same h))
  answered-new_step d st o rest sid (inr ((new, grown), signed)) h absent =
      let kept : elem sid o.1.seen ≡ true =
        rw (grown, elem-append sid st.seen (d.sid ∷ [])) (rw h) in
      let later = absent kept in
      if-intro (λ sids. elem sid sids ≡ false) (has_run st o) _ _
        (λ ran. ground (arith, later, h, new, eq_iff d.sid sid)) (λ idle. later)

  -- Ids that were seen before are not answered.
  pub answered-new :
      (ds : List Delivery) (st : State) (sid : String)
      → elem sid st.seen ≡ true
      → elem sid (answered ds st) ≡ false
  answered-new [] st sid h = refl
  answered-new (d ∷ ds) st sid h =
      let o = twilio_inbound p words tw turn d st in
      answered-new_step d st o (answered ds o.1) sid (twilio_inbound-IsHandled d st) h
        (λ e. answered-new ds o.1 sid e)

  answered-Distinct_step :
      (d : Delivery) (st : State) (o : Reply × State) (rest : List String)
      → IsHandled d st o
      → (elem d.sid o.1.seen ≡ true → elem d.sid rest ≡ false)
      → Distinct rest
      → Distinct (if_run (has_run st o) d.sid rest)
  answered-Distinct_step d st o rest (inl (same, quiet)) absent r =
      rw (idle-has_run d st o same quiet) r
  answered-Distinct_step d st o rest (inr ((new, grown), signed)) absent r =
      let kept : elem d.sid o.1.seen ≡ true =
        rw (grown, elem-append d.sid st.seen (d.sid ∷ [])) (ground (arith, eq_iff d.sid d.sid)) in
      if-intro Distinct (has_run st o) _ _ (λ ran. (absent kept, r)) (λ idle. r)

  answered_unique : (ds : List Delivery) (st : State) → Distinct (answered ds st)
  answered_unique [] st = tt
  answered_unique (d ∷ ds) st =
      let o = twilio_inbound p words tw turn d st in
      answered-Distinct_step d st o (answered ds o.1) (twilio_inbound-IsHandled d st)
        (λ e. answered-new ds o.1 d.sid e) (answered_unique ds o.1)

  -- However often messages are delivered, and in whatever order, no message id has a turn run for it
  -- twice, that is a turn that is replied to or that adds a message to the table; and none that was seen
  -- before has one run at all.
  pub answered-Distinct :
      (ds : List Delivery) (st : State)
      → Distinct (answered ds st) × All (λ sid. elem sid (answered ds st) ≡ false) st.seen
  answered-Distinct ds st = (
    answered_unique ds st,
    All-map _ _ (λ sid seen. answered-new ds st sid seen) st.seen (All-elem st.seen),
  )
