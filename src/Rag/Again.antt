-- ===== src/Rag/Again.antt =====
-- A second ingest of the pages of a crawl.
use mathlib.Core.List.{◌++◌}
use bots_infra_be.Common.{
  ℕ, ◌≡◌, refl, ap, ◌∙◌, true, false, String, str_eq, eq_iff, Option, none, some, Bool-cases, inl,
  inr, List, [], ◌∷◌, length, All, arith, if◌then◌else◌,
}
use bots_infra_be.Common.Dict.{elem}
use bots_infra_be.Rag.Chunker.{chunk_text}
use bots_infra_be.Rag.Crawl.{Page}
use bots_infra_be.Rag.Rounds.{urls_of}
use bots_infra_be.Common.Distinct.{Distinct}
use bots_infra_be.Rag.Ingest.{
  Document, Store, Report, Tools, is_page, find_document, renew, new_document, store_document,
  write_page, is_unchanged, ingest_page, ingest_pages,
}

find_document-append :
    (tenant : ℕ) (url : String) (ds : List Document) (d : Document)
    → find_document tenant url (ds ++ d ∷ []) ≡ (elim (find_document tenant url ds) [
      | some e ↦ some e
      | none ↦ if is_page tenant url d then some d else none
    ])
unfolding find_document
find_document-append tenant url [] d = refl
find_document-append tenant url (e ∷ ds) d = ground (arith, find_document-append tenant url ds d)

module _ (f : Document → Document) (same_tenant : (d : Document) → (f d).tenant ≡ d.tenant)
    (same_url : (d : Document) → (f d).url ≡ d.url) where
  find_document-renew :
      (tenant : ℕ) (url : String) (ds : List Document) (d : Document)
      → find_document tenant url ds ≡ some d
      → find_document tenant url (renew tenant url f ds) ≡ some (f d)
  unfolding find_document renew
  find_document-renew tenant url [] d h = absurd (ground (arith, h))
  find_document-renew tenant url (e ∷ ds) d h =
      ground (arith, h, same_tenant e, same_url e, find_document-renew tenant url ds d)

  find_document-renew_other :
      (tenant : ℕ) (url other : String) (ds : List Document)
      → str_eq url other ≡ false
      → find_document tenant other (renew tenant url f ds) ≡ find_document tenant other ds
  unfolding find_document renew
  find_document-renew_other tenant url other [] h = refl
  find_document-renew_other tenant url other (e ∷ ds) h = ground (
    arith,
    h,
    same_tenant e,
    same_url e,
    eq_iff e.url url,
    eq_iff e.url other,
    eq_iff url other,
    find_document-renew_other tenant url other ds h,
  )

module _ (tools : Tools) (tenant : ℕ) (location : Option ℕ) where
  write_page-documents :
      (page : Page) (existing : Option Document) (st : Store)
      → (write_page tools tenant location page existing st).1.documents
        ≡ (store_document tools tenant location page existing st).1.documents
  unfolding write_page
  write_page-documents page existing st = go (chunk_text tools.texts 900 150 page.text) refl
    where
      go :
          (pieces : List String)
          → chunk_text tools.texts 900 150 page.text ≡ pieces
          → (write_page tools tenant location page existing st).1.documents
            ≡ (store_document tools tenant location page existing st).1.documents
      go [] e = rw (e, write_page) refl
      go (piece ∷ pieces) e = rw (e, write_page) refl

  -- The document of a page is there, with the hash of its text.
  abbrev pub IsHeld : Page → List Document → Type 0
  IsHeld page ds = is_unchanged tools tenant location page (find_document tenant page.url ds) ≡ true

  store_document-IsHeld :
      (page : Page) (st : Store) (existing : Option Document)
      → find_document tenant page.url st.documents ≡ existing
      → IsHeld page (store_document tools tenant location page existing st).1.documents
  unfolding store_document
  store_document-IsHeld page st none e =
      rw
        (find_document-append tenant page.url st.documents
          (new_document tools tenant location page st.documents))
        (ground (
          arith,
          e,
          eq_iff page.url page.url,
          eq_iff (tools.content_hash page.text) (tools.content_hash page.text),
        ))
  store_document-IsHeld page st (some d) e =
      rw
        (find_document-renew
          (λ d. record d { content_hash = tools.content_hash page.text; title = page.title })
          (λ d. refl) (λ d. refl) tenant page.url st.documents d e)
        (ground (arith, eq_iff (tools.content_hash page.text) (tools.content_hash page.text)))

  store_document-other :
      (page : Page) (st : Store) (existing : Option Document) (other : String)
      → str_eq page.url other ≡ false
      → find_document tenant other
          (store_document tools tenant location page existing st).1.documents
        ≡ find_document tenant other st.documents
  unfolding store_document
  store_document-other page st none other h =
      find_document-append tenant other st.documents
        (new_document tools tenant location page st.documents)
      ∙ ground (arith, h)
  store_document-other page st (some d) other h =
      find_document-renew_other
        (λ d. record d { content_hash = tools.content_hash page.text; title = page.title })
        (λ d. refl) (λ d. refl) tenant page.url other st.documents h

  ingest_page-IsHeld :
      (page : Page) (st : Store)
      → IsHeld page (ingest_page tools tenant location page st).1.documents
  unfolding ingest_page
  ingest_page-IsHeld page st =
      let existing = find_document tenant page.url st.documents in
      elim (Bool-cases (is_unchanged tools tenant location page existing)) [
        | inl same ↦ rw (same, ingest_page) same
        | inr changed ↦
            rw (changed, ingest_page)
              (rw (write_page-documents page existing st)
                (store_document-IsHeld page st existing refl))
      ]

  ingest_page-other :
      (page : Page) (st : Store) (other : String)
      → str_eq page.url other ≡ false
      → find_document tenant other (ingest_page tools tenant location page st).1.documents
        ≡ find_document tenant other st.documents
  unfolding ingest_page
  ingest_page-other page st other h =
      let existing = find_document tenant page.url st.documents in
      elim (Bool-cases (is_unchanged tools tenant location page existing)) [
        | inl same ↦ rw (same, ingest_page) refl
        | inr changed ↦
            rw (changed, ingest_page)
              (rw (write_page-documents page existing st)
                (store_document-other page st existing other h))
      ]

  -- Pages of other texts leave the document of a page alone.
  ingest_pages-other :
      (pages : List Page) (st : Store) (url : String)
      → elem url (urls_of pages) ≡ false
      → find_document tenant url (ingest_pages tools tenant location pages st).1.documents
        ≡ find_document tenant url st.documents
  unfolding ingest_pages
  ingest_pages-other [] st url h = refl
  ingest_pages-other (page ∷ pages) st url h =
      ingest_pages-other pages (ingest_page tools tenant location page st).1 url (ground (arith, h))
      ∙ ingest_page-other page st url (ground (arith, h))

  ingest_pages-IsHeld :
      (pages : List Page) (st : Store)
      → Distinct (urls_of pages)
      → All (λ page. IsHeld page (ingest_pages tools tenant location pages st).1.documents) pages
  unfolding ingest_pages
  ingest_pages-IsHeld [] st d = tt
  ingest_pages-IsHeld (page ∷ pages) st d =
      let st' = (ingest_page tools tenant location page st).1 in
      (
        (rw (ingest_pages-other pages st' page.url d.0) (ingest_page-IsHeld page st)),
        ingest_pages-IsHeld pages st' d.1,
      )

  abbrev pub all_unchanged : ℕ → Report
  all_unchanged n = record { documents_indexed = 0; chunks = 0; unchanged = n }

  ingest_pages-unchanged :
      (pages : List Page) (st : Store)
      → All (λ page. IsHeld page st.documents) pages
      → ingest_pages tools tenant location pages st ≡ (all_unchanged (length pages), st)
  unfolding ingest_pages ingest_page
  ingest_pages-unchanged [] st h = refl
  ingest_pages-unchanged (page ∷ pages) st h =
      rw (h.0, ingest_pages-unchanged pages st h.1) (ap (λ n. (all_unchanged n, st)) (omega arith))

-- Once the pages of a crawl are ingested, each has its document, with the hash of its text; and to
-- ingest the same pages again changes nothing and reports all of them as unchanged. The pages have
-- different addresses.
pub ingest_pages_again :
    (tools : Tools) (tenant : ℕ) (location : Option ℕ) (pages : List Page) (st : Store)
    → Distinct (urls_of pages)
    → let st' = (ingest_pages tools tenant location pages st).1 in
      All (λ page. IsHeld tools tenant location page st'.documents) pages
      × (ingest_pages tools tenant location pages st'
          ≡ (record { documents_indexed = 0; chunks = 0; unchanged = length pages }, st'))
ingest_pages_again tools tenant location pages st d =
    let held = ingest_pages-IsHeld tools tenant location pages st d in
    (held, ingest_pages-unchanged tools tenant location pages _ held)
