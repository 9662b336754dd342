-- ===== src/Rag/Ingest.antt =====
-- The ingest of a crawled site: app/rag/ingest.py.
use mathlib.Core.List.{◌++◌}
use bots_infra_be.Common.{
  ℕ, ◌+◌, Bool, false, not, ◌&&◌, String, str_eq, Option, none, some, List, [], ◌∷◌, ◌==◌, keep,
  length, if◌then◌else◌,
}
use bots_infra_be.Rag.Chunker
use bots_infra_be.Rag.Chunker.{chunk_text}
use bots_infra_be.Rag.Crawl.{Page}

pub record Document : Type 0 where
  pub id : ℕ
  pub tenant : ℕ
  pub location : Option ℕ
  pub url : String
  pub title : String
  pub content_hash : String

-- A row of `chunks`, but for its vector.
pub record Chunk : Type 0 where
  pub tenant : ℕ
  pub location : Option ℕ
  pub document : ℕ
  pub content : String
  pub source_url : String

pub record Store : Type 0 where
  pub documents : List Document
  pub chunks : List Chunk

pub record Report : Type 0 where
  pub documents_indexed : ℕ
  pub chunks : ℕ
  pub unchanged : ℕ

-- `content_hash`, what the chunker reads of a text, and the id of a new row.
pub record Tools : Type 0 where
  pub content_hash : String → String
  pub texts : Chunker.Texts
  pub fresh : List Document → ℕ

abbrev pub is_page : ℕ → String → Document → Bool
is_page tenant url d = (d.tenant == tenant) && str_eq d.url url

unfoldable pub find_document : ℕ → String → List Document → Option Document
find_document tenant url [] = none
find_document tenant url (d ∷ ds) =
    let rest = find_document tenant url ds in if is_page tenant url d then some d else rest

-- The row that the query has found, with its new hash and title.
unfoldable pub renew : ℕ → String → (Document → Document) → List Document → List Document
renew tenant url f [] = []
renew tenant url f (d ∷ ds) =
    let rest = renew tenant url f ds in if is_page tenant url d then f d ∷ ds else d ∷ rest

module _ (tools : Tools) (tenant : ℕ) (location : Option ℕ) where
  abbrev pub new_document : Page → List Document → Document
  new_document page ds = record {
    id = tools.fresh ds;
    tenant = tenant;
    location = location;
    url = page.url;
    title = page.title;
    content_hash = tools.content_hash page.text;
  }

  -- `DELETE FROM chunks WHERE document_id = …`, and the row.
  unfoldable pub store_document : Page → Option Document → Store → ℕ × Store
  store_document page none st = (
    tools.fresh st.documents,
    record st { documents = st.documents ++ new_document page st.documents ∷ [] },
  )
  store_document page (some existing) st = (
    existing.id,
    record {
      documents =
          renew tenant page.url
            (λ d. record d { content_hash = tools.content_hash page.text; title = page.title })
            st.documents;
      chunks = keep (λ c. not (c.document == existing.id)) st.chunks;
    },
  )

  abbrev pub chunks_of : ℕ → Page → List String → List Chunk
  chunks_of document page [] = []
  chunks_of document page (piece ∷ pieces) =
      record {
        tenant = tenant;
        location = location;
        document = document;
        content = piece;
        source_url = page.url;
      }
      ∷ chunks_of document page pieces

  unfoldable pub write_page : Page → Option Document → Store → Report × Store
  unfolding store_document
  write_page page existing st =
      let (document, st') = store_document page existing st in
      elim (chunk_text tools.texts 900 150 page.text) [
        | [] ↦ (record { documents_indexed = 0; chunks = 0; unchanged = 0 }, st')
        | piece ∷ pieces ↦ (
          record { documents_indexed = 1; chunks = length (piece ∷ pieces); unchanged = 0 },
          record st' { chunks = st'.chunks ++ chunks_of document page (piece ∷ pieces) },
        )
      ]

  -- `existing and existing.content_hash == digest`
  abbrev pub is_unchanged : Page → Option Document → Bool
  is_unchanged page none = false
  is_unchanged page (some d) = str_eq d.content_hash (tools.content_hash page.text)

  -- One page of the loop.
  unfoldable pub ingest_page : Page → Store → Report × Store
  unfolding write_page
  ingest_page page st =
      let existing = find_document tenant page.url st.documents in
      if is_unchanged page existing
      then (record { documents_indexed = 0; chunks = 0; unchanged = 1 }, st)
      else write_page page existing st

  abbrev pub plus : Report → Report → Report
  plus a b = record {
    documents_indexed = a.documents_indexed + b.documents_indexed;
    chunks = a.chunks + b.chunks;
    unchanged = a.unchanged + b.unchanged;
  }

  -- `ingest_site`, on the pages of the crawl.
  unfoldable pub ingest_pages : List Page → Store → Report × Store
  unfolding ingest_page
  ingest_pages [] st = (record { documents_indexed = 0; chunks = 0; unchanged = 0 }, st)
  ingest_pages (page ∷ pages) st =
      let (report, st') = ingest_page page st in
      let (rest, st'') = ingest_pages pages st' in (plus report rest, st'')
