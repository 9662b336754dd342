-- ===== src/Rag/Rounds.antt =====
-- The invariant of a crawl, within a round of its loop.
use mathlib.Core.List.{◌++◌, append_assoc, append-nil}
use bots_infra_be.Common.{
  ℕ, zero, suc, ◌+◌, ◌*◌, ◌≤◌, ◌≡◌, ◌⊎◌, inl, inr, refl, sym, ap, ◌∙◌, subst, max, true, not, ◌&&◌,
  String, Option, none, some, List, [], ◌∷◌, ltb, length, length-append, take, drop, All,
  All-append, All-split, In, arith, if-intro,
}
use bots_infra_be.Common.Dict.{elem}
use bots_infra_be.Rag.Crawl.{
  Page, Link, Web, Limits, Crawl, is_followed, links_of, add_link, add_links, add_page, visit_page,
  fetch, visit_batch,
}
use bots_infra_be.Common.Distinct.{Distinct, Sublist, Distinct-append, Sublist-skip, Sublist-both}

abbrev pub urls_of : List Page → List String
urls_of [] = []
urls_of (p ∷ ps) = p.url ∷ urls_of ps

abbrev pub queued : List (String × ℕ) → List String
queued [] = []
queued ((url, depth) ∷ items) = url ∷ queued items

urls_of-append : (ps qs : List Page) → urls_of (ps ++ qs) ≡ urls_of ps ++ urls_of qs
urls_of-append [] qs = refl
urls_of-append (p ∷ ps) qs = ap (λ us. p.url ∷ us) (urls_of-append ps qs)

queued-append : (is js : List (String × ℕ)) → queued (is ++ js) ≡ queued is ++ queued js
queued-append [] js = refl
queued-append ((u, d) ∷ is) js = ap (λ us. u ∷ us) (queued-append is js)

queued-split :
    (n : ℕ) (is : List (String × ℕ)) → queued is ≡ queued (take n is) ++ queued (drop n is)
queued-split zero is = refl
queued-split (suc n) [] = refl
queued-split (suc n) ((u, d) ∷ is) = ap (λ us. u ∷ us) (queued-split n is)

pub urls_of-take :
    (n : ℕ) (ps : List Page) → (rest : List String) × (urls_of ps ≡ urls_of (take n ps) ++ rest)
urls_of-take zero ps = (urls_of ps, refl)
urls_of-take (suc n) [] = ([], refl)
urls_of-take (suc n) (p ∷ ps) = let (rest, e) = urls_of-take n ps in (rest, ap (λ us. p.url ∷ us) e)

module _ (web : Web) (limits : Limits) (host start : String) where
  -- A page that may be asked for: the start, or a link of some page to the same host.
  abbrev pub IsKnown : String → Type 0
  IsKnown url =
      (url ≡ start)
      ⊎ ((html : String) × (base : String) × (link : Link) × In link (web.links html base)
          × (is_followed host link ≡ true)
          × (link.absolute ≡ url))

  abbrev pub IsGood : Page → Type 0
  IsGood p = IsKnown p.url × (web.can_fetch p.url ≡ true)

  -- The state within a round: `done` are the texts that were taken from the queue, `batch` is left.
  pub record Inv (done batch : List String) (st : Crawl) : Type 0 where
    pub split : st.seen ≡ done ++ (batch ++ queued st.frontier)
    pub distinct : Distinct st.seen
    pub known : All IsKnown st.seen
    pub room : length st.seen ≤ max 1 (limits.max_pages * 4)
    pub taken : Sublist (urls_of st.pages) done
    pub good : All IsGood st.pages

  links_of-IsKnown :
      (html base : String) (links : List Link)
      → ((link : Link) → In link links → In link (web.links html base))
      → All IsKnown (links_of host links)
  unfolding links_of
  links_of-IsKnown html base [] sub = tt
  links_of-IsKnown html base (link ∷ links) sub =
      if-intro (All IsKnown) (is_followed host link) _ _
        (λ followed. (
          inr (html, base, link, sub link (inl refl), followed, refl),
          links_of-IsKnown html base links (λ l i. sub l (inr i)),
        ))
        (λ other. links_of-IsKnown html base links (λ l i. sub l (inr i)))

  add_link-Inv :
      (done batch : List String) (depth : ℕ) (link : String) (st : Crawl)
      → IsKnown link
      → Inv done batch st
      → Inv done batch (add_link web limits depth link st)
  unfolding add_link
  add_link-Inv done batch depth link st known inv =
      if-intro (Inv done batch)
        (not (elem link st.seen) && ltb (length st.seen) (limits.max_pages * 4)) _ _
        (λ new. record {
          split =
              ap (λ us. us ++ link ∷ []) inv.split
              ∙ append_assoc done (batch ++ queued st.frontier) (link ∷ [])
              ∙ ap (λ us. done ++ us) (append_assoc batch (queued st.frontier) (link ∷ []))
              ∙ ap (λ us. done ++ (batch ++ us))
                  (sym (queued-append st.frontier ((link, depth + 1) ∷ [])));
          distinct = Distinct-append st.seen link inv.distinct (ground (arith, new));
          known = All-append IsKnown st.seen (link ∷ []) inv.known (known, tt);
          room = ground (arith, new, length-append st.seen (link ∷ []));
          taken = inv.taken;
          good = inv.good;
        })
        (λ old. inv)

  add_links-Inv :
      (done batch : List String) (depth : ℕ) (links : List String) (st : Crawl)
      → All IsKnown links
      → Inv done batch st
      → Inv done batch (add_links web limits depth links st)
  unfolding add_links
  add_links-Inv done batch depth [] st known inv = inv
  add_links-Inv done batch depth (link ∷ links) st known inv =
      add_links-Inv done batch depth links (add_link web limits depth link st) known.1
        (add_link-Inv done batch depth link st known.0 inv)

  -- The page of the text that is taken next, which no page has yet.
  record Taken (url : String) (done batch : List String) (st : Crawl) : Type 0 where
    rest : Inv (done ++ url ∷ []) batch st
    page_left : Sublist (urls_of st.pages ++ url ∷ []) (done ++ url ∷ [])
    its_known : IsKnown url

  add_page-Inv :
      (url html : String) (extracted : Option (String × ℕ)) (done batch : List String) (st : Crawl)
      → web.can_fetch url ≡ true
      → Taken url done batch st
      → Inv (done ++ url ∷ []) batch (add_page web limits url html extracted st)
  unfolding add_page
  add_page-Inv url html none done batch st allowed t = t.rest
  add_page-Inv url html (some (text, size)) done batch st allowed t =
      let inv = t.rest in
      if-intro (Inv (done ++ url ∷ []) batch) (ltb 120 size) _ _
        (λ long. record {
          split = inv.split;
          distinct = inv.distinct;
          known = inv.known;
          room = inv.room;
          taken =
              subst (λ us. Sublist us (done ++ url ∷ [])) (sym (urls_of-append st.pages _))
                t.page_left;
          good = All-append IsGood st.pages _ inv.good ((t.its_known, allowed), tt);
        })
        (λ short. inv)

  visit_page-Inv :
      (url : String) (depth : ℕ) (html : Option String) (done batch : List String) (st : Crawl)
      → (html ≡ none) ⊎ (web.can_fetch url ≡ true)
      → Taken url done batch st
      → Inv (done ++ url ∷ []) batch (visit_page web limits host url depth html st)
  unfolding visit_page
  visit_page-Inv url depth none done batch st allowed t = t.rest
  visit_page-Inv url depth (some html) done batch st (inl absurdity) t = unfold visit_page in cc
  visit_page-Inv url depth (some html) done batch st (inr allowed) t =
      let paged = add_page-Inv url html (web.extract html) done batch st allowed t in
      if-intro (Inv (done ++ url ∷ []) batch) (ltb depth limits.max_depth) _ _
        (λ shallow.
          add_links-Inv (done ++ url ∷ []) batch depth (links_of host (web.links html url)) _
            (links_of-IsKnown html url (web.links html url) (λ l i. i)) paged)
        (λ deep. paged)

  -- Taking the head of the batch.
  take-Taken :
      (url : String) (done batch : List String) (st : Crawl)
      → Inv done (url ∷ batch) st
      → Taken url done batch st
  take-Taken url done batch st inv = record {
    rest = record {
      split = inv.split ∙ sym (append_assoc done (url ∷ []) (batch ++ queued st.frontier));
      distinct = inv.distinct;
      known = inv.known;
      room = inv.room;
      taken = Sublist-skip (urls_of st.pages) done url inv.taken;
      good = inv.good;
    };
    page_left = Sublist-both (urls_of st.pages) done url inv.taken;
    its_known =
        (All-split IsKnown done (url ∷ (batch ++ queued st.frontier))
          (subst (All IsKnown) inv.split inv.known)).1.0;
  }

  fetch_cases : (url : String) → (fetch web limits url ≡ none) ⊎ (web.can_fetch url ≡ true)
  fetch_cases url = ground arith

  pub visit_batch-Inv :
      (items : List (String × ℕ)) (done : List String) (st : Crawl)
      → Inv done (queued items) st
      → Inv (done ++ queued items) [] (visit_batch web limits host items st)
  unfolding visit_batch
  visit_batch-Inv [] done st inv = rw (append-nil done) inv
  visit_batch-Inv ((url, depth) ∷ items) done st inv =
      subst (λ us. Inv us [] (visit_batch web limits host ((url, depth) ∷ items) st))
        (append_assoc done (url ∷ []) (queued items))
        (visit_batch-Inv items (done ++ url ∷ []) _ (
          visit_page-Inv url depth (fetch web limits url) done (queued items) st (fetch_cases url)
            (take-Taken url done (queued items) st inv)))

  -- Taking the batch from the queue.
  pub take-Inv :
      (n : ℕ) (items : List (String × ℕ)) (done : List String) (st : Crawl)
      → st.frontier ≡ items
      → Inv done [] st
      → Inv done (queued (take n items)) (record st { frontier = drop n items })
  take-Inv n items done st e inv = record {
    split =
        inv.split ∙ ap (λ is. done ++ queued is) e ∙ ap (λ us. done ++ us) (queued-split n items);
    distinct = inv.distinct;
    known = inv.known;
    room = inv.room;
    taken = inv.taken;
    good = inv.good;
  }
