-- ===== src/Config/Policy/Slice.antt =====
-- `normalizeStringSlice`: what it returns, and that it leaves its own result as it is.
use gh_aw_mcpg.Common.{
  All, All-append, Bool, Distinct, Fresh, Fresh-insert_key, Fresh-nil, List, [], ap,
  append-Distinct, arith, false, has_key, has_key-append, has_key-insert_key, if◌then◌else◌,
  insert_key, is_nil, map, refl, sym, ◌++◌, ◌∷◌, ◌≡◌,
}
use gh_aw_mcpg.Common.Result.{ok}
use gh_aw_mcpg.Common.Text.{Str, str_eq, trim_space}
use gh_aw_mcpg.Common.Text.Laws.{trim_space_idem}
use gh_aw_mcpg.Config.Failure.{non_empty_string}
use gh_aw_mcpg.Config.Policy.{normalize_string_slice, slice_loop}
use mathlib.Core.List.{append-nil, append_assoc, map-append}

module _ (case_norm : Str → Str) (store_norm : Bool)
    (idem : (s : Str) → case_norm (case_norm s) ≡ case_norm s)
    (trims : (s : Str) → trim_space (case_norm s) ≡ case_norm (trim_space s))
    (nil_kept : (s : Str) → is_nil (case_norm s) ≡ is_nil s) where
  abbrev stored : Str → Str
  stored v = if store_norm then case_norm v else v

  -- an entry that another run stores as it is
  abbrev pub Stable : Str → Type 0
  Stable s = (trim_space s ≡ s) × (is_nil s ≡ false) × (stored s ≡ s)

  -- stable entries, no two with the same key
  abbrev pub NormalSlice : List Str → Type 0
  NormalSlice ss = All Stable ss × Distinct (map case_norm ss)

  stored-Stable : (s : Str) → is_nil (trim_space s) ≡ false → Stable (stored (trim_space s))
  stored-Stable s h =
      ground (
        arith,
        idem (trim_space s),
        trims (trim_space s),
        nil_kept (trim_space s),
        trim_space_idem s,
      )

  case_norm-stored : (s : Str) → case_norm (stored s) ≡ case_norm s
  case_norm-stored s = ground (arith, idem s)

  slice_loop-NormalSlice :
      (ss seen out : List Str) {res : List Str}
      → ((k : Str) → has_key (map case_norm out) k ≡ has_key seen k)
      → NormalSlice out
      → slice_loop case_norm store_norm ss seen out ≡ ok res
      → NormalSlice res
  unfolding slice_loop non_empty_string has_key
  slice_loop-NormalSlice [] seen out {res} same n h = ground arith
  slice_loop-NormalSlice (s ∷ ss) seen out {res} same n h = ground (
    arith,
    same (case_norm (trim_space s)),
    stored-Stable s,
    case_norm-stored (trim_space s),
    slice_loop-NormalSlice ss seen out {res = res} same n,
    All-append Stable out (stored (trim_space s) ∷ []) n.0,
    map-append case_norm out (stored (trim_space s) ∷ []),
    append-Distinct (map case_norm out) (case_norm (trim_space s)) n.1,
    slice_loop-NormalSlice ss (insert_key (case_norm (trim_space s)) seen)
        (out ++ stored (trim_space s) ∷ []) {res = res}
        (λ k. ground (
          arith,
          same k,
          map-append case_norm out (stored (trim_space s) ∷ []),
          case_norm-stored (trim_space s),
          has_key-insert_key (case_norm (trim_space s)) k seen,
          has_key-append (map case_norm out) (case_norm (trim_space s) ∷ []) k,
        )),
  )

  slice_loop_stable :
      (ss seen out : List Str)
      → NormalSlice ss
      → Fresh seen (map case_norm ss)
      → slice_loop case_norm store_norm ss seen out ≡ ok (out ++ ss)
  unfolding slice_loop non_empty_string
  slice_loop_stable [] seen out n f = ap ok (sym (append-nil out))
  slice_loop_stable (s ∷ ss) seen out n f = grind (
    arith,
    n.0.0,
    f.0,
    slice_loop_stable ss (insert_key (case_norm s) seen) (out ++ s ∷ []) (n.0.1, n.1.1)
        ((Fresh-insert_key (case_norm s) seen (map case_norm ss)).1 (n.1.0, f.1)),
    append_assoc out (s ∷ []) ss,
  )

  -- What is returned has no two entries with one key, each trimmed, not empty and in its stored form,
  pub normalize_string_slice-NormalSlice :
      (ss : List Str) {out : List Str}
      → normalize_string_slice ss case_norm store_norm ≡ ok out
      → NormalSlice out
  unfolding normalize_string_slice
  normalize_string_slice-NormalSlice ss h = slice_loop-NormalSlice ss [] [] (λ k. refl) (tt, tt) h

  -- and such entries are returned as they are.
  pub normalize_string_slice_stable :
      (ss : List Str) → NormalSlice ss → normalize_string_slice ss case_norm store_norm ≡ ok ss
  unfolding normalize_string_slice
  normalize_string_slice_stable ss n = slice_loop_stable ss [] [] n (Fresh-nil (map case_norm ss))
