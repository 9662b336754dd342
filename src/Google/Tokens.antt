-- ===== src/Google/Tokens.antt =====
-- The cache of access tokens: what it serves, and how large it grows.
use bots_infra_be.Common.{
  ℕ, suc, ◌+◌, ◌≤◌, ◌<◌, ◌≡◌, ◌⊎◌, inl, inr, refl, ◌∙◌, ap, leb→le, Bool, true, false, String,
  str_eq, eq_iff, Option, none, some, [], ◌∷◌, length, leb, ◌==◌, arith, if◌then◌else◌, if-intro,
  Bool-cases,
}
use bots_infra_be.Common.Dict.{Dict, put, pop, Unique, get-put, get-pop, put-Unique, pop-Unique}
use bots_infra_be.Common.Dict
use bots_infra_be.Common.Json.{Fields, get}
use bots_infra_be.Graph.{holds}
use bots_infra_be.Google.{
  Creds, TokenCache, Response, Remote, Outcome, text_or, token_skew, max_token_cache, after_hit,
  cache_get, cache_put, as_dict, seconds_of, after_seconds, after_body, after_refresh, key_of,
  after_cached, access_token,
}

-- No key twice, and no more than 512 tokens.
pub record IsCache (cache : TokenCache) : Type 0 where
  pub unique : Unique cache
  pub size : length cache ≤ max_token_cache

length-put : {V : Type 0} (d : Dict V) (k : String) (v : V) → length (put d k v) ≤ suc (length d)
unfolding put
length-put [] k v = omega arith
length-put ((j, w) ∷ d) k v = ground (arith, length-put d k v)

length-pop : {V : Type 0} (d : Dict V) (k : String) → length (pop d k) ≤ length d
unfolding pop
length-pop [] k = omega arith
length-pop ((j, w) ∷ d) k = ground (arith, length-pop d k)

-- Every entry of a cache is one of another.
abbrev pub Within : TokenCache → TokenCache → Type 0
Within cache cache' =
    (k : String) → (Dict.get cache' k ≡ Dict.get cache k) ⊎ (Dict.get cache' k ≡ none)

module _ (g : Remote) (now : ℕ) (creds : Creds) (cache : TokenCache) where
  -- The token was in the cache and lives for more than a minute.
  abbrev pub IsKept : String → TokenCache → Type 0
  IsKept token cache' =
      (end : ℕ) × (Dict.get cache (key_of g creds) ≡ some (token, end))
      × (now + 60 < end)
      × (cache' ≡ cache)

  -- The entry of the credentials, beside entries of the cache of the call.
  abbrev pub Holds : String → ℕ → TokenCache → Type 0
  Holds token end cache' =
      (Dict.get cache' (key_of g creds) ≡ some (token, end))
      × ((k : String)
          → str_eq (key_of g creds) k ≡ false
          → (Dict.get cache' k ≡ Dict.get cache k) ⊎ (Dict.get cache' k ≡ none))

  -- The server answered below 400 with a dict.
  abbrev pub IsGiven : Fields → Type 0
  IsGiven body =
      (r : Response) × (g.refresh creds ≡ some r) × (r.status < 400) × (as_dict r.body ≡ some body)

  -- The client raised, or an answer below 400 was no dict, or its lifetime was no number.
  abbrev pub IsBroken : Type 0
  IsBroken =
      (g.refresh creds ≡ none)
      ⊎ ((r : Response) × (g.refresh creds ≡ some r) × (r.status < 400) × (as_dict r.body ≡ none))
      ⊎ ((body : Fields) × IsGiven body × (seconds_of g (get body "expires_in") ≡ none))

  -- The server gave the token, which is in the cache until its end; every other entry was there.
  abbrev pub IsFetched : String → TokenCache → Type 0
  IsFetched token cache' =
      (body : Fields) × (seconds : ℕ) × IsGiven body
      × (token ≡ text_or g "" (get body "access_token"))
      × (seconds_of g (get body "expires_in") ≡ some seconds)
      × Holds token (now + seconds) cache'

  -- How `access_token` ends.
  abbrev pub IsAnswered : Outcome String × TokenCache → Type 0
  IsAnswered (Outcome.ok token, cache') =
      IsCache cache' × (IsKept token cache' ⊎ IsFetched token cache')
  IsAnswered (Outcome.calendar_error none permanent, cache') =
      IsCache cache'
      × Within cache cache'
      × (permanent ≡ true)
      × ((body : Fields) × IsGiven body × (holds (get body "access_token") ≡ false))
  IsAnswered (Outcome.calendar_error (some status) permanent, cache') =
      IsCache cache'
      × Within cache cache'
      × (400 ≤ status)
      × (permanent ≡ (status == 400))
      × ((r : Response) × (g.refresh creds ≡ some r) × (r.status ≡ status))
  IsAnswered (Outcome.raised, cache') = IsCache cache' × Within cache cache' × IsBroken

  cache_put-IsCache :
      (key token : String) (seconds : ℕ) (c : TokenCache)
      → IsCache c
      → IsCache (cache_put now key token seconds c)
  unfolding cache_put
  cache_put-IsCache key token seconds c is_cache =
      if-intro (λ d. IsCache (put d key (token, now + seconds))) (leb max_token_cache (length c)) []
        c
        (λ full. record {
          unique = put-Unique [] key (token, now + seconds) tt;
          size = omega (arith, length-put {V = String × ℕ} [] key (token, now + seconds));
        })
        (λ room. record {
          unique = put-Unique c key (token, now + seconds) is_cache.unique;
          size = ground (arith, room, length-put c key (token, now + seconds));
        })

  put-Holds :
      (token : String) (end : ℕ) (d : TokenCache)
      → Within cache d
      → Holds token end (put d (key_of g creds) (token, end))
  put-Holds token end d within = (
    get-put d (key_of g creds) (key_of g creds) (token, end)
        ∙ ap (pick d (key_of g creds) (token, end))
            ((eq_iff (key_of g creds) (key_of g creds)).1 refl),
    λ k apart.
        let same = get-put d (key_of g creds) k (token, end) ∙ ap (pick d k (token, end)) apart in
        elim (within k) [ inl kept ↦ inl (same ∙ kept) | inr gone ↦ inr (same ∙ gone) ],
  )
    where
      pick : TokenCache → String → String × ℕ → Bool → Option (String × ℕ)
      pick d k v b = if b then some v else Dict.get d k

  -- After the refresh, with a cache that lies within the one of the call.
  module _ (c : TokenCache) (is_cache : IsCache c) (within : Within cache c) where
    cache_put-Holds :
        (token : String) (seconds : ℕ)
        → Holds token (now + seconds) (cache_put now (key_of g creds) token seconds c)
    unfolding cache_put
    cache_put-Holds token seconds =
        if-intro (λ d. Holds token (now + seconds) (put d (key_of g creds) (token, now + seconds)))
          (leb max_token_cache (length c)) [] c
          (λ full. put-Holds token (now + seconds) [] (λ k. inr (unfold Dict.get in refl)))
          (λ room. put-Holds token (now + seconds) c within)

    seconds-IsAnswered :
        (r : Response) (body : Fields)
        → g.refresh creds ≡ some r
        → r.status < 400
        → as_dict r.body ≡ some body
        → (o : Option ℕ) → seconds_of g (get body "expires_in") ≡ o
        → IsAnswered
            (after_seconds now (key_of g creds) (text_or g "" (get body "access_token")) c o)
    seconds-IsAnswered r body e low is_body none h =
        (is_cache, within, inr (inr (body, (r, e, low, is_body), h)))
    seconds-IsAnswered r body e low is_body (some seconds) h =
        let token = text_or g "" (get body "access_token") in
        (
          cache_put-IsCache (key_of g creds) token seconds c is_cache,
          inr (body, seconds, (r, e, low, is_body), refl, h, cache_put-Holds token seconds),
        )

    body-IsAnswered :
        (r : Response)
        → g.refresh creds ≡ some r
        → r.status < 400
        → (body : Option Fields) → as_dict r.body ≡ body
        → IsAnswered (after_body g now (key_of g creds) c body)
    body-IsAnswered r e low none h = (is_cache, within, inr (inl (r, e, low, h)))
    body-IsAnswered r e low (some body) h =
        if-intro IsAnswered (holds (get body "access_token")) _ _
          (λ there. seconds-IsAnswered r body e low h (seconds_of g (get body "expires_in")) refl)
          (λ missing. (is_cache, within, refl, (body, (r, e, low, h), missing)))

    refresh-IsAnswered :
        (o : Option Response)
        → g.refresh creds ≡ o
        → IsAnswered (after_refresh g now (key_of g creds) c o)
    refresh-IsAnswered none e = (is_cache, within, inl e)
    refresh-IsAnswered (some r) e =
        if-intro IsAnswered (leb 400 r.status) _ _
          (λ high. (is_cache, within, leb→le 400 r.status high, refl, (r, e, refl)))
          (λ low. body-IsAnswered r e (ground (arith, low)) (as_dict r.body) refl)

    -- Without a token of the cache.
    missed-IsAnswered : IsAnswered (after_refresh g now (key_of g creds) c (g.refresh creds))
    missed-IsAnswered = refresh-IsAnswered (g.refresh creds) refl

  pop-Within : Unique cache → Within cache (pop cache (key_of g creds))
  pop-Within u k =
      let law = get-pop cache (key_of g creds) k u in
      elim (Bool-cases (str_eq (key_of g creds) k)) [
        | inl same ↦ inr (ground (arith, law, same))
        | inr apart ↦ inl (ground (arith, law, apart))
      ]

  hit-IsAnswered :
      IsCache cache
      → (o : Option (String × ℕ)) → Dict.get cache (key_of g creds) ≡ o
      → IsAnswered (after_cached g now creds (after_hit now (key_of g creds) cache o))
  hit-IsAnswered is_cache none e = missed-IsAnswered cache is_cache (λ k. inl refl)
  hit-IsAnswered is_cache (some (token, end)) e =
      if-intro (λ r. IsAnswered (after_cached g now creds r)) (leb end (now + token_skew)) _ _
        (λ old.
          missed-IsAnswered (pop cache (key_of g creds))
            (record {
              unique = pop-Unique cache (key_of g creds) is_cache.unique;
              size = omega (arith, length-pop cache (key_of g creds), is_cache.size);
            })
            (pop-Within is_cache.unique))
        (λ lives.
          if-intro IsAnswered (str_eq token "") _ _
            (λ blank. missed-IsAnswered cache is_cache (λ k. inl refl))
            (λ text. (is_cache, inl (end, e, ground (arith, lives), refl))))

  -- With a cache of at most 512 tokens and no key twice, `access_token` leaves such a cache. A token that
  -- it gives was in the cache under the key of the credentials, and lives for more than a minute; or the
  -- server gave it in an answer below 400, and the cache holds it under that key, until the end that the
  -- server said; no other entry is new. An error of the calendar has the status of the server's answer,
  -- from 400 on, and is permanent exactly if that is 400; or the answer was below 400 and held no token,
  -- which is permanent. The call raises only where the client did, or where an answer below 400 was no
  -- dict or gave no number for its lifetime.
  pub access_token-IsAnswered : IsCache cache → IsAnswered (access_token g now creds cache)
  unfolding access_token cache_get
  access_token-IsAnswered is_cache = hit-IsAnswered is_cache (Dict.get cache (key_of g creds)) refl
