-- ===== src/Rag/Crawl.antt =====
-- The crawler: app/rag/crawler.py.
use mathlib.Core.List.{◌++◌}
use bots_infra_be.Common.{
  ℕ, zero, suc, ◌+◌, ◌*◌, Bool, true, false, not, ◌&&◌, ◌||◌, String, str_eq, Option, none, some,
  List, [], ◌∷◌, ltb, length, take, drop, if◌then◌else◌,
}
use bots_infra_be.Common.Dict.{elem}

pub record Page : Type 0 where
  pub url : String
  pub title : String
  pub text : String

-- A link of a page: its absolute form without a fragment, with the scheme and the host that are parsed
-- from it, and whether it has a suffix to skip.
pub record Link : Type 0 where
  pub absolute : String
  pub scheme : String
  pub netloc : String
  pub skipped : Bool

-- The web, and what is read of a page: `get` is `none` where the request fails or the answer is not an
-- HTML page; `links` are the `href`s that are neither empty nor of another kind; `extract` is the text
-- of the page where it has one, with its length.
pub record Web : Type 0 where
  pub normalise : String → String
  pub netloc : String → String
  pub can_fetch : String → Bool
  pub get : String → Option String
  pub links : (html base : String) → List Link
  pub extract : String → Option (String × ℕ)
  pub title : String → String

pub record Limits : Type 0 where
  pub max_pages : ℕ
  pub max_depth : ℕ
  pub concurrency : ℕ

-- The state of the loop: `seen` in the order of the additions.
pub record Crawl : Type 0 where
  pub seen : List String
  pub frontier : List (String × ℕ)
  pub pages : List Page

-- The test of a link in `_links`.
abbrev pub is_followed : String → Link → Bool
is_followed host link =
    (str_eq link.scheme "http" || str_eq link.scheme "https")
    && str_eq link.netloc host
    && not link.skipped

-- `_links`
unfoldable pub links_of : String → List Link → List String
links_of host [] = []
links_of host (link ∷ links) =
    let rest = links_of host links in if is_followed host link then link.absolute ∷ rest else rest

module _ (web : Web) (limits : Limits) where
  unfoldable pub add_link : ℕ → String → Crawl → Crawl
  add_link depth link st =
      if not (elem link st.seen) && ltb (length st.seen) (limits.max_pages * 4)
      then record st {
        seen = st.seen ++ link ∷ [];
        frontier = st.frontier ++ (link, depth + 1) ∷ [];
      }
      else st

  unfoldable pub add_links : ℕ → List String → Crawl → Crawl
  unfolding add_link
  add_links depth [] st = st
  add_links depth (link ∷ links) st = add_links depth links (add_link depth link st)

  -- The page of a text of more than 120 characters.
  unfoldable pub add_page : String → String → Option (String × ℕ) → Crawl → Crawl
  add_page url html none st = st
  add_page url html (some (text, size)) st =
      if ltb 120 size
      then record st {
        pages = st.pages ++ record { url = url; title = web.title html; text = text } ∷ [];
      }
      else st

  -- One result of the batch.
  unfoldable pub visit_page : String → String → ℕ → Option String → Crawl → Crawl
  unfolding add_page add_links links_of
  visit_page host url depth none st = st
  visit_page host url depth (some html) st =
      let paged = add_page url html (web.extract html) st in
      if ltb depth limits.max_depth
      then add_links depth (links_of host (web.links html url)) paged
      else paged

  -- `fetch`
  abbrev pub fetch : String → Option String
  fetch url = if web.can_fetch url then web.get url else none

  unfoldable pub visit_batch : String → List (String × ℕ) → Crawl → Crawl
  unfolding visit_page
  visit_batch host [] st = st
  visit_batch host ((url, depth) ∷ batch) st =
      visit_batch host batch (visit_page host url depth (fetch url) st)

  -- The `while` loop, with fuel; `none` where it is spent.
  unfoldable pub loop : ℕ → String → Crawl → Option Crawl
  unfolding visit_batch
  loop zero host st = none
  loop (suc fuel) host st = elim st.frontier [
    | [] ↦ some st
    | item ∷ items ↦ elim (ltb (length st.pages) limits.max_pages) [
      | true ↦ loop fuel host (
          visit_batch host (take limits.concurrency (item ∷ items))
            (record st { frontier = drop limits.concurrency (item ∷ items) }))
      | false ↦ some st
    ]
  ]

  -- `pages[:max_pages]`
  abbrev pub pages_of : Option Crawl → Option (List Page)
  pages_of none = none
  pages_of (some st) = some (take limits.max_pages st.pages)

  abbrev pub begin : String → Crawl
  begin url = record { seen = url ∷ []; frontier = (url, 0) ∷ []; pages = [] }

  -- `crawl`
  unfoldable pub crawl : String → Option (List Page)
  unfolding loop
  crawl start =
      let url = web.normalise start in
      pages_of (loop (suc (suc (limits.max_pages * 4))) (web.netloc url) (begin url))
