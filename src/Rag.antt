-- ===== src/Rag.antt =====
-- Retrieval over a tenant's published pages: app/rag. The crawl in Crawl, the chunks of a text in
-- Chunker, the ingest of pages in Ingest, the fusion of rankings in Fusion and the search in Retrieve.
-- The hits and the text that the prompt holds of them (`format_context`) are here.
pub mod Crawl
pub mod Rounds
pub mod Crawled
pub mod Chunker
pub mod Pieces
pub mod Ingest
pub mod Again
pub mod Fusion
pub mod Retrieve
pub mod Merged
pub mod Found
mod Examples
use bots_infra_be.Common.{
  ℕ, ◌+◌, String, str_eq, concat, Option, none, some, List, [], ◌∷◌, if◌then◌else◌,
}

-- A hit, by the keys that the prompt reads.
pub record Hit : Type 0 where
  pub content : String
  pub source_url : Option String

-- `h.get('source_url') or 'site'`
abbrev pub source_of : Option String → String
source_of none = "site"
source_of (some url) = if str_eq url "" then "site" else url

-- `"\n\n".join(…)`
abbrev pub join : String → List String → String
join sep [] = ""
join sep (x ∷ []) = x
join sep (x ∷ y ∷ rest) = concat x (concat sep (join sep (y ∷ rest)))

module _ (show : ℕ → String) where
  -- The sources, numbered from `i`.
  abbrev pub sources : ℕ → List Hit → List String
  sources i [] = []
  sources i (h ∷ hits) =
      concat "[source "
        (concat (show i) (concat ": " (concat (source_of h.source_url) (concat "]\n" h.content))))
      ∷ sources (i + 1) hits

  -- `format_context`
  unfoldable pub format_context : List Hit → String
  format_context [] = "(no matching information found in the business's published content)"
  format_context (h ∷ hits) = join "\n\n" (sources 1 (h ∷ hits))
