-- ===== src/Rag/Examples.antt =====
-- A small site and a small index, and the theorems at concrete inputs.
use bots_infra_be.Common.{
  if-intro, leb→le, leb, ◌-◌, ℕ, ◌+◌, ◌/◌, ◌≤◌, ◌≡◌, refl, true, false, String, str_eq, Option,
  none, some, List, [], ◌∷◌, map, length, ltb, All, arith, if◌then◌else◌,
}
use bots_infra_be.Common.Dict.{get, put}
use bots_infra_be.Rag.Crawl.{Page, Link, Web, Limits, crawl}
use bots_infra_be.Rag.Crawled.{IsCrawled, crawl-IsCrawled}
use bots_infra_be.Rag.Chunker.{chunk_text}
use bots_infra_be.Rag.Chunker
use bots_infra_be.Rag.Pieces.{Lengths}
use bots_infra_be.Rag.Ingest.{Store, Tools, find_document, renew, ingest_pages}
use bots_infra_be.Rag.Again.{IsHeld, ingest_pages_again}
use bots_infra_be.Rag.Fusion.{Scores, rrf_fuse}
use bots_infra_be.Rag.Retrieve.{Row, Hit, Cfg, Sources, retrieve}
use bots_infra_be.Rag.Found.{IsFound, retrieve-IsFound}

abbrev link : String → String → Link
link url host = record { absolute = url; scheme = "https"; netloc = host; skipped = false }

-- The page "a" links to itself, to "b" twice and to another host; "b" links back.
abbrev web : Web
web = record {
  normalise = λ u. u;
  netloc = λ u. "host";
  can_fetch = λ u. true;
  get = λ u. some u;
  links = λ html base. link "a" "host" ∷ link "b" "host" ∷ link "b" "host" ∷ link "c" "other" ∷ [];
  extract = λ html. some (html, 200);
  title = λ html. html;
}

abbrev limits : Limits
limits = record { max_pages = 3; max_depth = 3; concurrency = 4 }

abbrev page : String → Page
page url = record { url = url; title = url; text = url }

both_pages : crawl web limits "a" ≡ some (page "a" ∷ page "b" ∷ [])
unfolding crawl
both_pages = refl

crawl-IsCrawled_example : IsCrawled web limits "a" (crawl web limits "a")
crawl-IsCrawled_example = crawl-IsCrawled web limits "a" (omega arith)

abbrev tools : Tools
tools = record {
  content_hash = λ s. s;
  texts = record {
    size = λ s. 200;
    clean = λ s. s;
    sentences = λ s. s ∷ [];
    glue = λ a b. b;
    slice = λ i j s. s;
    tail = λ n s. s;
  };
  fresh = length;
}

abbrev empty : Store
empty = record { documents = []; chunks = [] }

abbrev pages : List Page
pages = page "a" ∷ page "b" ∷ []

first_time :
    (ingest_pages tools 7 none pages empty).0
    ≡ record { documents_indexed = 2; chunks = 2; unchanged = 0 }
unfolding ingest_pages find_document renew chunk_text
first_time = refl

-- A site that was ingested for one location is unchanged for another, which gets no chunk.
other_location :
    let st = (ingest_pages tools 7 (some 1) pages empty).1 in
    map (λ c. c.location) (ingest_pages tools 7 (some 2) pages st).1.chunks ≡ some 1 ∷ some 1 ∷ []
unfolding ingest_pages find_document renew chunk_text
other_location = refl

ingest_pages_again_example :
    let st = (ingest_pages tools 7 none pages empty).1 in
    All (λ page. IsHeld tools 7 none page st.documents) pages
    × (ingest_pages tools 7 none pages st
        ≡ (record { documents_indexed = 0; chunks = 0; unchanged = 2 }, st))
ingest_pages_again_example = ingest_pages_again tools 7 none pages empty (refl, (refl, tt))

-- Scores in thousandths.
abbrev scores : Scores ℕ
scores = record { zero_score = 0; add = λ a b. a + b; reciprocal = λ n. 60000 / n; less = ltb }

-- Found by both legs, "y" wins.
fused :
    rrf_fuse scores (("x" ∷ "y" ∷ []) ∷ ("y" ∷ "z" ∷ []) ∷ []) 60
    ≡ some (("y", 1950) ∷ ("x", 983) ∷ ("z", 967) ∷ [])
unfolding rrf_fuse get put
fused = refl

abbrev hit : String → Hit ℕ
hit id = record { row = record { id = id; content = id; source_url = "" }; score = 10; via = none }

abbrev sources : Sources ℕ
sources = record {
  is_blank = λ s. false;
  dense_rows = λ q n. if ltb 1 n then hit "x" ∷ hit "y" ∷ [] else [];
  sparse_rows = λ q n. hit "y" ∷ hit "z" ∷ [];
  rerank_scores = λ q texts. map (λ t. if str_eq t "z" then 9 else 1) texts;
  size = λ s. 40;
}

abbrev cfg : Cfg ℕ
cfg = record {
  top_k = 3;
  min_score = 5;
  max_context_chars = 100;
  hybrid = true;
  rerank = true;
  candidates = 20;
  rrf_k = 60;
}

ids : Option (List (Hit ℕ)) → List String
ids none = []
ids (some hits) = map (λ h. h.row.id) hits

-- The cross-encoder prefers "z"; a third text would not fit.
best : ids (retrieve scores sources cfg "q") ≡ "z" ∷ "y" ∷ []
unfolding ids retrieve get put rrf_fuse
best = refl

one_score : (f : String → ℕ) (texts : List String) → length (map f texts) ≡ length texts
one_score f [] = refl
one_score f (t ∷ texts) = omega (arith, one_score f texts)

abbrev IsIndexed : Row → Type 0
IsIndexed row = row.source_url ≡ ""

few_rows :
    (n : ℕ)
    → let rows = if ltb 1 n then hit "x" ∷ hit "y" ∷ [] else [] in
      All (λ h. IsIndexed h.row) rows × (length rows ≤ n)
few_rows n = ground arith

retrieve-IsFound_example : IsFound scores sources cfg IsIndexed (retrieve scores sources cfg "q")
retrieve-IsFound_example =
    retrieve-IsFound scores sources cfg IsIndexed
      (λ q texts. one_score (λ t. if str_eq t "z" then 9 else 1) texts) (omega arith)
      (λ q n. few_rows n) (λ q n. (refl, (refl, tt))) "q"

-- The text "x" has two sentences of 50 characters.
abbrev size : String → ℕ
size s = if str_eq s "" then 0 else if str_eq s "x" then 150 else 50

abbrev texts : Chunker.Texts
texts = record {
  size = size;
  clean = λ s. s;
  sentences = λ s. "a" ∷ "b" ∷ [];
  glue = λ a b. b;
  slice = λ i j s. if leb (size s) (j - i) then s else "";
  tail = λ n s. if leb (size s) n then s else "";
}

two_chunks : chunk_text texts 60 50 "x" ≡ "a" ∷ "b" ∷ []
unfolding chunk_text
two_chunks = refl

texts-Lengths : Lengths texts
texts-Lengths = record {
  size-empty = refl;
  size-glue = λ a b. omega arith;
  size-slice = λ i n s.
      if-intro (λ t. size t ≤ n) (leb (size s) (i + n - i)) s "" (λ h. omega (arith, leb→le _ _ h))
        (λ h. omega arith);
  size-tail = λ n s.
      if-intro (λ t. size t ≤ n) (leb (size s) n) s "" (λ h. omega (arith, leb→le _ _ h))
        (λ h. omega arith);
}
