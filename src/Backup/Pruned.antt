-- ===== src/Backup/Pruned.antt =====
-- What a pruning removes.
use mathlib.Core.List.{◌++◌}
use bots_infra_be.Common.{
  ℕ, zero, suc, ◌-◌, ◌*◌, ◌≤◌, ◌≡◌, ◌∙◌, ap, sym, refl, Bool, String, Option, List, [], ◌∷◌, map,
  length, take, drop, keep, All, All-append, arith, Bool-cases, inl, inr, length-take,
  length-append,
}
use bots_infra_be.Backup.{
  Object, Pages, batch_limit, is_stale, batches, stale_keys, prune_pages, retain_of, prune,
}

-- The keys of all calls, one after the other.
abbrev pub flat : List (List String) → List String
flat [] = []
flat (call ∷ calls) = call ++ flat calls

-- The objects of all pages.
abbrev pub listed : Pages → List Object
listed [] = []
listed (page ∷ pages) = page ++ listed pages

take-drop : {A : Type 0} (n : ℕ) (xs : List A) → take n xs ++ drop n xs ≡ xs
take-drop zero xs = refl
take-drop (suc n) [] = refl
take-drop (suc n) (x ∷ xs) = ap (λ l. x ∷ l) (take-drop n xs)

length-drop : {A : Type 0} (n : ℕ) (xs : List A) → length (drop n xs) ≡ length xs - n
length-drop zero xs = omega arith
length-drop (suc n) [] = omega arith
length-drop (suc n) (x ∷ xs) = omega (arith, length-drop n xs)

append_assoc : {A : Type 0} (xs ys zs : List A) → (xs ++ ys) ++ zs ≡ xs ++ (ys ++ zs)
append_assoc [] ys zs = refl
append_assoc (x ∷ xs) ys zs = ap (λ l. x ∷ l) (append_assoc xs ys zs)

flat-append : (xs ys : List (List String)) → flat (xs ++ ys) ≡ flat xs ++ flat ys
flat-append [] ys = refl
flat-append (x ∷ xs) ys =
    ap (λ l. x ++ l) (flat-append xs ys) ∙ sym (append_assoc x (flat xs) (flat ys))

-- The batches hold the keys in their order, and none is larger than the limit.
flat-batches :
    (fuel : ℕ) (keys : List String)
    → length keys ≤ fuel
    → (flat (batches fuel keys) ≡ keys)
      × All (λ call. length call ≤ batch_limit) (batches fuel keys)
unfolding batches
flat-batches zero [] h = (refl, tt)
flat-batches zero (k ∷ keys) h = absurd (omega arith)
flat-batches (suc fuel) [] h = (refl, tt)
flat-batches (suc fuel) (k ∷ keys) h =
    let rest = drop batch_limit (k ∷ keys) in
    let (same, small) =
      flat-batches fuel rest (omega (arith, h, length-drop batch_limit (k ∷ keys))) in
    (
      ap (λ l. take batch_limit (k ∷ keys) ++ l) same ∙ take-drop batch_limit (k ∷ keys),
      (omega (arith, length-take batch_limit (k ∷ keys)), small),
    )

keep-append :
    {A : Type 0} (p : A → Bool) (xs ys : List A) → keep p (xs ++ ys) ≡ keep p xs ++ keep p ys
keep-append p [] ys = refl
keep-append p (x ∷ xs) ys = elim (Bool-cases (p x)) [
  | inl pass ↦ rw pass (ap (λ l. x ∷ l) (keep-append p xs ys))
  | inr fail ↦ rw fail (keep-append p xs ys)
]

map-append : {A B : Type 0} (f : A → B) (xs ys : List A) → map f (xs ++ ys) ≡ map f xs ++ map f ys
map-append f [] ys = refl
map-append f (x ∷ xs) ys = ap (λ l. f x ∷ l) (map-append f xs ys)

stale_keys-append :
    (cutoff : ℕ) (xs ys : List Object)
    → stale_keys cutoff (xs ++ ys) ≡ stale_keys cutoff xs ++ stale_keys cutoff ys
stale_keys-append cutoff xs ys =
    ap (map (λ o. o.key)) (keep-append (is_stale cutoff) xs ys)
    ∙ map-append (λ o. o.key) (keep (is_stale cutoff) xs) (keep (is_stale cutoff) ys)

abbrev pub IsPruned : ℕ → Pages → List (List String) × ℕ → Type 0
IsPruned cutoff pages (calls, removed) =
    (flat calls ≡ stale_keys cutoff (listed pages))
    × (removed ≡ length (stale_keys cutoff (listed pages)))
    × All (λ call. length call ≤ batch_limit) calls

prune_pages-IsPruned :
    (cutoff : ℕ) (pages : Pages) → IsPruned cutoff pages (prune_pages cutoff pages)
unfolding prune_pages
prune_pages-IsPruned cutoff [] = (refl, refl, tt)
prune_pages-IsPruned cutoff (page ∷ pages) =
    let stale = stale_keys cutoff page in
    let (calls, removed) = prune_pages cutoff pages in
    let (rest, count, small) = prune_pages-IsPruned cutoff pages in
    let (here, within) = flat-batches (length stale) stale (omega arith) in
    let split = stale_keys-append cutoff page (listed pages) in
    (
      flat-append (batches (length stale) stale) (prune_pages cutoff pages).0
          ∙ ap (λ l. l ++ flat (prune_pages cutoff pages).0) here
          ∙ ap (λ l. stale ++ l) rest
          ∙ sym split,
      rw (split, length-append stale (stale_keys cutoff (listed pages))) (omega (arith, count)),
      All-append _ (batches (length stale) stale) (prune_pages cutoff pages).0 within small,
    )

-- Pruning names, in its calls, the keys of exactly the objects that are older than the window of days,
-- each once and in the order of the listing, however the listing is paged; it reports their number; and
-- no call names more than a thousand.
pub prune-IsPruned :
    (now : ℕ) (retain_days : Option ℕ) (default_days : ℕ) (pages : Pages)
    → IsPruned
        (now - retain_of retain_days default_days * 86400)
        pages
        (prune now retain_days default_days pages)
unfolding prune
prune-IsPruned now retain_days default_days pages = prune_pages-IsPruned _ pages
