-- ===== src/Rag/Crawled.antt =====
-- What a crawl ends with.
use mathlib.Core.List.{◌++◌}
use bots_infra_be.Common.{
  ℕ, zero, suc, ◌+◌, ◌*◌, ◌≤◌, ◌<◌, ◌≡◌, inl, inr, refl, ap, subst, max, String, Option, none, some,
  Bool-cases, List, [], ◌∷◌, ltb, length, length-append, length-take, take, All, All-take, arith,
}
use bots_infra_be.Rag.Crawl.{Page, Web, Limits, Crawl, loop, pages_of, begin, crawl}
use bots_infra_be.Common.Distinct.{Distinct, Sublist, Distinct-prefix, Distinct-Sublist}
use bots_infra_be.Rag.Rounds.{urls_of, queued, urls_of-take, IsGood, Inv, visit_batch-Inv, take-Inv}

module _ (web : Web) (limits : Limits) (host start : String) where
  taken-positive :
      (n : ℕ) (item : String × ℕ) (items : List (String × ℕ))
      → 1 ≤ n
      → 1 ≤ length (queued (take n (item ∷ items)))
  taken-positive zero item items h = absurd (omega (arith, h))
  taken-positive (suc n) item items h = omega arith

  taken-room :
      (done : List String) (st : Crawl)
      → Inv web limits host start done [] st
      → length done ≤ max 1 (limits.max_pages * 4)
  taken-room done st inv =
      omega (arith, inv.room, ap length inv.split, length-append done (queued st.frontier))

  -- The end of the loop, which is reached.
  abbrev IsDone : Option Crawl → Type 0
  IsDone none = ⊥
  IsDone (some st) = (done : List String) × Inv web limits host start done [] st

  loop_step :
      (fuel : ℕ) (done : List String) (st : Crawl) (items : List (String × ℕ))
      → st.frontier ≡ items
      → 1 ≤ limits.concurrency
      → max 1 (limits.max_pages * 4) < suc fuel + length done
      → Inv web limits host start done [] st
      → ((more : List String) (next : Crawl)
          → max 1 (limits.max_pages * 4) < fuel + length more
          → Inv web limits host start more [] next
          → IsDone (loop web limits fuel host next))
      → IsDone (loop web limits (suc fuel) host st)
  unfolding loop
  loop_step fuel done st [] e wide enough inv rest = rw (e, loop) (done, inv)
  loop_step fuel done st (item ∷ items) e wide enough inv rest =
      let batch = take limits.concurrency (item ∷ items) in
      elim (Bool-cases (ltb (length st.pages) limits.max_pages)) [
        | inr full ↦ rw (e, loop) (rw (full, loop) (done, inv))
        | inl more ↦
            rw (e, loop)
              (rw (more, loop)
                (rest (done ++ queued batch) _
                  (omega (
                    arith,
                    enough,
                    length-append done (queued batch),
                    taken-positive limits.concurrency item items wide,
                  ))
                  (visit_batch-Inv web limits host start batch done _ (
                    take-Inv web limits host start limits.concurrency (item ∷ items) done st e
                      inv))))
      ]

  -- Every round takes one text at least, and the texts that are ever seen are bounded.
  loop-IsDone :
      (fuel : ℕ) (done : List String) (st : Crawl)
      → 1 ≤ limits.concurrency
      → max 1 (limits.max_pages * 4) < fuel + length done
      → Inv web limits host start done [] st
      → IsDone (loop web limits fuel host st)
  loop-IsDone zero done st wide enough inv = absurd (omega (arith, enough, taken-room done st inv))
  loop-IsDone (suc fuel) done st wide enough inv =
      loop_step fuel done st st.frontier refl wide enough inv
        (λ more next room i. loop-IsDone fuel more next wide room i)

-- A crawl that ends with its pages.
abbrev pub IsCrawled : Web → Limits → String → Option (List Page) → Type 0
IsCrawled web limits start none = ⊥
IsCrawled web limits start (some pages) =
    (length pages ≤ limits.max_pages)
    × Distinct (urls_of pages)
    × All (IsGood web limits (web.netloc (web.normalise start)) (web.normalise start)) pages

pages_of-IsCrawled :
    (web : Web) (limits : Limits) (start : String) (end : Option Crawl)
    → IsDone web limits (web.netloc (web.normalise start)) (web.normalise start) end
    → IsCrawled web limits start (pages_of web limits end)
pages_of-IsCrawled web limits start none h = h
pages_of-IsCrawled web limits start (some st) (done, inv) =
    let (rest, e) = urls_of-take limits.max_pages st.pages in
    (
      omega (arith, length-take limits.max_pages st.pages),
      Distinct-prefix (urls_of (take limits.max_pages st.pages)) rest (
          subst Distinct e (
            Distinct-Sublist (urls_of st.pages) done inv.taken
              (Distinct-prefix done (queued st.frontier) (subst Distinct inv.split inv.distinct)))),
      All-take _ limits.max_pages st.pages inv.good,
    )

begin-Inv :
    (web : Web) (limits : Limits) (host start : String)
    → Inv web limits host start [] [] (begin web limits start)
begin-Inv web limits host start = record {
  split = refl;
  distinct = (refl, tt);
  known = (inl refl, tt);
  room = omega arith;
  taken = Sublist.empty;
  good = tt;
}

-- With a concurrency of one at least, a crawl ends, with no more pages than the limit says. No page is
-- there twice, and each is allowed by the robots file and is the start or linked to, from some page, as
-- a page of the same host.
pub crawl-IsCrawled :
    (web : Web) (limits : Limits) (start : String)
    → 1 ≤ limits.concurrency
    → IsCrawled web limits start (crawl web limits start)
unfolding crawl
crawl-IsCrawled web limits start wide =
    let url = web.normalise start in
    pages_of-IsCrawled web limits start _ (
      loop-IsDone web limits (web.netloc url) url (suc (suc (limits.max_pages * 4))) [] _ wide
        (omega arith) (begin-Inv web limits (web.netloc url) url))
