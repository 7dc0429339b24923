-- ===== src/Mcp/Pagination.antt =====
-- internal/mcp/pagination.go: all items of a paginated list. `fetch` is given the number of the page
-- beside the cursor, so that a backend may answer the same cursor differently. Without a cap the loop
-- may go on for ever, so it runs on fuel, the number of rounds.
pub mod Laws
use gh_aw_mcpg.Common.{
  Bool, List, Option, [], arith, false, has_key, insert_key, is_nil, leb, ltb, none, refl, some,
  suc, true, zero, ℕ, ◌&&◌, ◌++◌,
}
use gh_aw_mcpg.Common.Int.{negsuc, pos, ℤ}
use gh_aw_mcpg.Common.Text.{Str, str_eq}

pub data Page (A : Type 0) : Type 0 where
  page : List A → Str → Page A
  fetch_error : Str → Page A

pub data PageResult (A : Type 0) : Type 0 where
  collected : List A → PageResult A
  fetch_failed : Str → PageResult A
  page_limit : PageResult A
  cyclical_cursor : Str → PageResult A

-- a page's items before those of the later pages
abbrev pub with_items : {A : Type 0} → List A → PageResult A → PageResult A
with_items items (collected rest) = collected (items ++ rest)
with_items items (fetch_failed err) = fetch_failed err
with_items items page_limit = page_limit
with_items items (cyclical_cursor c) = cyclical_cursor c

abbrev pub after_items : {A : Type 0} → List A → Option (PageResult A) → Option (PageResult A)
after_items items none = none
after_items items (some r) = some (with_items items r)

-- whether the cap, which a number that is not positive switches off, forbids one more page
unfoldable pub at_page_limit : ℤ → ℕ → Bool
at_page_limit (pos max_pages) count = ltb 0 max_pages && leb max_pages count
at_page_limit (negsuc n) count = false

module _ {A : Type 0} (fetch : ℕ → Str → Page A) where
  -- the loop, after `count` pages; `none` is a run that goes on when the fuel is used up
  unfoldable pub paginate_from : ℕ → ℤ → ℕ → Str → List Str → Option (PageResult A)
  paginate_from zero max_pages count cursor seen = none
  paginate_from (suc fuel) max_pages count cursor seen = elim (at_page_limit max_pages count) [
    | true ↦ some page_limit
    | false ↦ elim (fetch count cursor) [
      | fetch_error err ↦ some (fetch_failed err)
      | page items next ↦ elim (is_nil next) [
        | true ↦ some (collected items)
        | false ↦ elim (has_key seen next) [
          | true ↦ some (cyclical_cursor next)
          | false ↦
              after_items items
                (paginate_from fuel max_pages (suc count) next (insert_key next seen))
        ]
      ]
    ]
  ]

  unfoldable pub paginate_all : ℕ → ℤ → Option (PageResult A)
  paginate_all fuel max_pages = paginate_from fuel max_pages 0 [] []

abbrev pub paginate_all_max_pages : ℤ
paginate_all_max_pages = pos 100
