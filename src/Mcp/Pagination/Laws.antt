-- ===== src/Mcp/Pagination/Laws.antt =====
-- The loop over pages against the chain of cursors that it follows (internal/mcp/pagination.go).
use gh_aw_mcpg.Common.{
  Bool-cases, List, Option, [], arith, false, has_key, inl, inr, insert_key, is_nil, none, refl,
  some, suc, true, zero, ℕ, ◌++◌, ◌+◌, ◌<◌, ◌↔◌, ◌∷◌, ◌≡◌, ◌≤◌, ◌⊎◌,
}
use gh_aw_mcpg.Common.Int.{negsuc, pos, ℤ}
use gh_aw_mcpg.Common.Text.{Str, str_eq}
use gh_aw_mcpg.Mcp.Pagination.{
  Page, PageResult, after_items, at_page_limit, collected, cyclical_cursor, fetch_error,
  fetch_failed, page, page_limit, paginate_all, paginate_from, with_items,
}

Page-cases :
    {A : Type 0} (p : Page A)
    → ((err : Str) × (p ≡ fetch_error err))
      ⊎ ((items : List A) × (next : Str) × (p ≡ page items next))
Page-cases (fetch_error err) = inl (err, refl)
Page-cases (page items next) = inr (items, next, refl)

is_nil-nil : (s : Str) → is_nil s ≡ true → s ≡ []
is_nil-nil [] h = refl
is_nil-nil (c ∷ s) h = ground arith

after_items-collected :
    {A : Type 0} (items : List A) (r : Option (PageResult A)) (all : List A)
    → after_items items r ≡ some (collected all)
    → (rest : List A) × (r ≡ some (collected rest)) × (all ≡ items ++ rest)
after_items-collected items none all h = ground arith
after_items-collected items (some (collected rest)) all h = (rest, refl, ground arith)
after_items-collected items (some (fetch_failed err)) all h = ground arith
after_items-collected items (some page_limit) all h = ground arith
after_items-collected items (some (cyclical_cursor c)) all h = ground arith

after_items-some :
    {A : Type 0} (items : List A) (o : Option (PageResult A)) (r : PageResult A)
    → o ≡ some r
    → after_items items o ≡ some (with_items items r)
after_items-some items o r h = ground arith

-- The cap allows as many pages as it says; one that is not positive allows any number.
abbrev pub Within : ℤ → ℕ → Type 0
Within (pos max_pages) pages = (max_pages ≡ 0) ⊎ (pages ≤ max_pages)
Within (negsuc n) pages = Unit

Within-at_page_limit :
    (max_pages : ℤ) (count : ℕ)
    → Within max_pages (suc count) ↔ (at_page_limit max_pages count ≡ false)
unfolding at_page_limit
Within-at_page_limit (pos zero) count = (λ h. refl, λ h. inl refl)
Within-at_page_limit (pos (suc n)) count = ground arith
Within-at_page_limit (negsuc n) count = (λ h. refl, λ h. tt)

at_page_limit-reached :
    (max_pages count : ℕ)
    → 0 < max_pages
    → max_pages ≤ count
    → at_page_limit (pos max_pages) count ≡ true
unfolding at_page_limit
at_page_limit-reached max_pages count h b = ground arith

Within-less : (max_pages : ℤ) (m n : ℕ) → m ≤ n → Within max_pages n → Within max_pages m
Within-less (pos max_pages) m n h w = ground arith
Within-less (negsuc k) m n h w = tt

module _ {A : Type 0} (fetch : ℕ → Str → Page A) where
  -- From a page on, the backend leads in the number of pages, by cursors that are all new, to a page
  -- with no next cursor; these are all the items.
  abbrev pub Chain : ℕ → ℕ → Str → List Str → List A → Type 0
  Chain zero count cursor seen all = ⊥
  Chain (suc n) count cursor seen all =
      (items : List A) × (next : Str) × (fetch count cursor ≡ page items next)
      × (((next ≡ []) × (all ≡ items))
          ⊎ ((rest : List A) × (is_nil next ≡ false)
              × (has_key seen next ≡ false)
              × (all ≡ items ++ rest)
              × Chain n (suc count) next (insert_key next seen) rest))

  paginate_from-Chain :
      (max_pages : ℤ) (n count : ℕ) (cursor : Str) (seen : List Str) (all : List A)
      → Within max_pages (n + count)
      → Chain n count cursor seen all
      → paginate_from fetch n max_pages count cursor seen ≡ some (collected all)
  unfolding paginate_from
  paginate_from-Chain max_pages zero count cursor seen all h c = absurd c
  paginate_from-Chain max_pages (suc n) count cursor seen all h
        (items, next, found, inl (last, whole)) =
      let open_cap =
        (Within-at_page_limit max_pages count).0
          (Within-less max_pages (suc count) (suc n + count) (omega arith) h) in
      ground arith
  paginate_from-Chain max_pages (suc n) count cursor seen all h
        (items, next, found, inr (rest, more, new, whole, chain)) =
      let open_cap =
        (Within-at_page_limit max_pages count).0
          (Within-less max_pages (suc count) (suc n + count) (omega arith) h) in
      ground (
        arith,
        paginate_from-Chain max_pages n (suc count) next (insert_key next seen) rest
            (Within-less max_pages (n + suc count) (suc n + count) (omega arith) h) chain,
      )

  -- a chain that goes on after a page
  Chain-next :
      (n count : ℕ) (cursor : Str) (seen : List Str) (items : List A) (next : Str) (rest : List A)
      → fetch count cursor ≡ page items next
      → is_nil next ≡ false
      → has_key seen next ≡ false
      → Chain n (suc count) next (insert_key next seen) rest
      → Chain (suc n) count cursor seen (items ++ rest)
  Chain-next n count cursor seen items next rest found more new chain =
      (items, next, found, inr (rest, more, new, refl, chain))

  Chain-paginate_from :
      (fuel : ℕ) (max_pages : ℤ) (count : ℕ) (cursor : Str) (seen : List Str) (all : List A)
      → paginate_from fetch fuel max_pages count cursor seen ≡ some (collected all)
      → (n : ℕ) × Within max_pages (n + count) × Chain n count cursor seen all
  unfolding paginate_from
  Chain-paginate_from zero max_pages count cursor seen all h = ground arith
  Chain-paginate_from (suc fuel) max_pages count cursor seen all h =
      elim (Bool-cases (at_page_limit max_pages count)) [
        | inl reached ↦ ground arith
        | inr below ↦ elim (Page-cases (fetch count cursor)) [
          | inl (err, failed) ↦ ground arith
          | inr (items, next, found) ↦ elim (Bool-cases (is_nil next)) [
            | inl last ↦ (
              1,
              Within-less max_pages (1 + count) (suc count) (omega arith)
                  ((Within-at_page_limit max_pages count).1 below),
              (items, next, found, inl (is_nil-nil next last, ground arith)),
            )
            | inr more ↦ elim (Bool-cases (has_key seen next)) [
              | inl old ↦ ground arith
              | inr new ↦
                  let later : Option (PageResult A) =
                    paginate_from fetch fuel max_pages (suc count) next (insert_key next seen) in
                  let (rest, tail, whole) = after_items-collected items later all (ground arith) in
                  let (n, below', chain) =
                    Chain-paginate_from fuel max_pages (suc count) next (insert_key next seen) rest
                      tail in
                  (
                    suc n,
                    Within-less max_pages (suc n + count) (n + suc count) (omega arith) below',
                    rw whole (Chain-next n count cursor seen items next rest found more new chain),
                  )
            ]
          ]
        ]
      ]

  -- Some number of rounds returns items exactly if they are those of a chain of pages, in order, that
  -- leads by cursors, all new and not empty, to a page without one, in at most as many pages as the cap
  -- allows; without a cap, which is one that is not positive, in any number of pages.
  pub paginate_all_iff :
      (max_pages : ℤ) (all : List A)
      → ((fuel : ℕ) × (paginate_all fetch fuel max_pages ≡ some (collected all)))
        ↔ ((n : ℕ) × Within max_pages n × Chain n 0 [] [] all)
  unfolding paginate_all
  paginate_all_iff max_pages all = (
    λ (fuel, h).
        let (n, within, chain) = Chain-paginate_from fuel max_pages 0 [] [] all h in
        (n, Within-less max_pages n (n + 0) (omega arith) within, chain),
    λ (n, within, chain). (
      n,
      paginate_from-Chain max_pages n 0 [] [] all
          (Within-less max_pages (n + 0) n (omega arith) within) chain,
    ),
  )

  paginate_from-ends :
      (left max_pages count : ℕ) (cursor : Str) (seen : List Str)
      → 0 < max_pages
      → max_pages ≤ left + count
      → (r : PageResult A) × (paginate_from fetch (suc left) (pos max_pages) count cursor seen
          ≡ some r)
  unfolding paginate_from
  paginate_from-ends zero max_pages count cursor seen h b =
      (page_limit, ground (arith, at_page_limit-reached max_pages count h (omega arith)))
  paginate_from-ends (suc left) max_pages count cursor seen h b =
      elim (Bool-cases (at_page_limit (pos max_pages) count)) [
        | inl reached ↦ (page_limit, ground arith)
        | inr below ↦ elim (Page-cases (fetch count cursor)) [
          | inl (err, failed) ↦ (fetch_failed err, ground arith)
          | inr (items, next, found) ↦ elim (Bool-cases (is_nil next)) [
            | inl last ↦ (collected items, ground arith)
            | inr more ↦ elim (Bool-cases (has_key seen next)) [
              | inl old ↦ (cyclical_cursor next, ground arith)
              | inr new ↦
                  let (r, ended) =
                    paginate_from-ends left max_pages (suc count) next (insert_key next seen) h
                      (omega arith) in
                  (
                    with_items items r,
                    ground (
                      arith,
                      after_items-some items
                          (paginate_from fetch (suc left) (pos max_pages) (suc count) next
                            (insert_key next seen))
                          r ended,
                    ),
                  )
            ]
          ]
        ]
      ]

  -- With a positive cap the pagination ends, whatever the backend answers, in at most one round more
  -- than the cap has pages.
  pub paginate_all_ends :
      (max_pages : ℕ)
      → 0 < max_pages
      → (r : PageResult A) × (paginate_all fetch (suc max_pages) (pos max_pages) ≡ some r)
  unfolding paginate_all
  paginate_all_ends max_pages h = paginate_from-ends max_pages max_pages 0 [] [] h (omega arith)
