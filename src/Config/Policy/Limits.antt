-- ===== src/Config/Policy/Limits.antt =====
-- `normalizeToolCallLimits`: what it returns, and that it leaves its own result as it is.
use gh_aw_mcpg.Common.{All, List, [], ap, arith, false, is_nil, sym, ◌++◌, ◌∷◌, ◌≡◌}
use gh_aw_mcpg.Common.Dict.{
  All-insert, Apart, Apart-append, Apart-nil, IsDict, insert, insert-IsDict, insert_new,
}
use gh_aw_mcpg.Common.Int.{ℤ}
use gh_aw_mcpg.Common.Result.{ok}
use gh_aw_mcpg.Common.Text.{Str, str_eq, trim_space}
use gh_aw_mcpg.Common.Text.Laws.{trim_space_idem}
use gh_aw_mcpg.Config.Failure.{non_empty_string}
use gh_aw_mcpg.Config.Policy.{is_negative, limits_loop, normalize_tool_call_limits}
use mathlib.Core.List.{append-nil, append_assoc}

-- a name that is trimmed and not empty, with a limit that is not negative
abbrev pub IsLimit : Str × ℤ → Type 0
IsLimit (name, limit) =
    (trim_space name ≡ name) × (is_nil name ≡ false) × (is_negative limit ≡ false)

abbrev pub NormalLimits : List (Str × ℤ) → Type 0
NormalLimits m = All IsLimit m × IsDict m

limits_loop-NormalLimits :
    (m out : List (Str × ℤ)) {res : List (Str × ℤ)}
    → NormalLimits out
    → limits_loop m out ≡ ok res
    → NormalLimits res
unfolding limits_loop non_empty_string
limits_loop-NormalLimits [] out {res} n h = ground arith
limits_loop-NormalLimits ((name, limit) ∷ m) out {res} n h = ground (
  arith,
  trim_space_idem name,
  All-insert IsLimit (trim_space name) limit out,
  insert-IsDict (trim_space name) limit out n.1,
  limits_loop-NormalLimits m (insert (trim_space name) limit out) {res = res},
)

limits_loop_normal :
    (m out : List (Str × ℤ)) → NormalLimits m → Apart out m → limits_loop m out ≡ ok (out ++ m)
unfolding limits_loop non_empty_string
limits_loop_normal [] out n a = ap ok (sym (append-nil out))
limits_loop_normal ((name, limit) ∷ m) out n a = grind (
  arith,
  n.0.0,
  insert_new name limit out a.0,
  limits_loop_normal m (out ++ (name, limit) ∷ []) (n.0.1, n.1.1)
      (Apart-append name limit out m n.1.0 a.1),
  append_assoc out ((name, limit) ∷ []) m,
)

pub normalize_tool_call_limits-NormalLimits :
    (m : List (Str × ℤ)) {out : List (Str × ℤ)}
    → normalize_tool_call_limits m ≡ ok out
    → NormalLimits out
unfolding normalize_tool_call_limits
normalize_tool_call_limits-NormalLimits m h = limits_loop-NormalLimits m [] (tt, tt) h

pub normalize_tool_call_limits_normal :
    (m : List (Str × ℤ)) → NormalLimits m → normalize_tool_call_limits m ≡ ok m
unfolding normalize_tool_call_limits
normalize_tool_call_limits_normal m n = limits_loop_normal m [] n (Apart-nil m)
