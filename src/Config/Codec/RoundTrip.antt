-- ===== src/Config/Codec/RoundTrip.antt =====
-- Decoding an encoded policy gives it back.
pub mod Whole
use gh_aw_mcpg.Common.{
  All, List, [], ap, arith, false, inl, inr, is_nil, refl, sym, ◌++◌, ◌<◌, ◌^◌, ◌∙◌, ◌∷◌, ◌≡◌,
}
use gh_aw_mcpg.Common.Dict.{Apart, Apart-append, Apart-nil, IsDict, insert_new}
use gh_aw_mcpg.Common.Int.{negsuc, pos, ℤ}
use gh_aw_mcpg.Common.Json.{
  Fields, Items, Json, array, elements, entries, integer, object, string, to_fields, to_items,
}
use gh_aw_mcpg.Common.Result.{Result-cases, ok, ◌>>=◌}
use gh_aw_mcpg.Common.Text.{Str, bytes, str_eq, to_lower, trim_space}
use gh_aw_mcpg.Config.Codec.{decode_field, decode_loop, is_nil_repos}
use gh_aw_mcpg.Config.Codec.Encode.{encode_repos, limits_field, numbers, slice_field, text_field}
use gh_aw_mcpg.Config.Codec.Values.{
  decode_entries, decode_int, decode_items, decode_string, decode_strings,
}
use gh_aw_mcpg.Config.Policy.{AllowOnlyPolicy, decoded}
use gh_aw_mcpg.Config.Scope.Array.{strings}
use mathlib.Core.List.{append-nil, append_assoc}

pub entries-to_fields : (m : List (Str × Json)) → entries (to_fields m) ≡ m
entries-to_fields [] = refl
entries-to_fields ((k, v) ∷ m) = ap (λ rest. (k, v) ∷ rest) (entries-to_fields m)

elements-to_items : (vs : List Json) → elements (to_items vs) ≡ vs
elements-to_items [] = refl
elements-to_items (v ∷ vs) = ap (λ rest. v ∷ rest) (elements-to_items vs)

decode_items-strings : (ss : List Str) → decode_items (strings ss) ≡ ok ss
unfolding decode_items decode_string
decode_items-strings [] = refl
decode_items-strings (s ∷ ss) = rw (decode_items-strings ss) refl

pub decode_strings-array : (ss : List Str) → decode_strings (array (to_items (strings ss))) ≡ ok ss
unfolding decode_strings
decode_strings-array ss = rw (elements-to_items (strings ss)) (decode_items-strings ss)

-- an integer of 64 bits
abbrev pub InRange : ℤ → Type 0
InRange (pos n) = n < 2 ^ 63
InRange (negsuc n) = n < 2 ^ 63

decode_int-integer : (n : ℤ) → InRange n → decode_int (integer n) ≡ ok n
unfolding decode_int
decode_int-integer (pos n) h = ground arith
decode_int-integer (negsuc n) h = ground arith

decode_entries-numbers :
    (m out : List (Str × ℤ))
    → All (λ e. InRange e.1) m
    → IsDict m
    → Apart out m
    → decode_entries (numbers m) out ≡ ok (out ++ m)
unfolding decode_entries
decode_entries-numbers [] out r d a = ap ok (sym (append-nil out))
decode_entries-numbers ((k, n) ∷ m) out r d a =
    rw (decode_int-integer n r.0, insert_new k n out a.0)
      (decode_entries-numbers m (out ++ (k, n) ∷ []) r.1 d.1 (Apart-append k n out m d.0 a.1)
        ∙ ap ok (append_assoc out ((k, n) ∷ []) m))

-- The loop takes the fields in turn.
decode_loop-append :
    (fs gs : List (Str × Json)) (p : AllowOnlyPolicy)
    → decode_loop (fs ++ gs) p ≡ (decode_loop fs p >>= decode_loop gs)
unfolding decode_loop
decode_loop-append [] gs p = refl
decode_loop-append ((k, v) ∷ fs) gs p = elim (Result-cases (decode_field (to_lower k) v p)) [
  | inl (q, e) ↦ rw e (decode_loop-append fs gs q)
  | inr (failure, e) ↦ rw e refl
]

pub decode_loop_then :
    (fs gs : List (Str × Json)) (p q : AllowOnlyPolicy)
    → decode_loop fs p ≡ ok q
    → decode_loop (fs ++ gs) p ≡ decode_loop gs q
decode_loop_then fs gs p q h = rw (decode_loop-append fs gs p, h) refl

-- a list of strings under its key: `with ss` is the policy with the field set to `ss`
pub decode_loop-slice_field :
    (key : Str) (with : List Str → AllowOnlyPolicy)
    → ((vs : Items)
        → decode_field (to_lower key) (array vs) (with [])
          ≡ (decode_strings (array vs) >>= (λ ss. ok (with ss))))
    → (ss : List Str) → decode_loop (slice_field key ss) (with []) ≡ ok (with ss)
unfolding decode_loop
decode_loop-slice_field key with step [] = refl
decode_loop-slice_field key with step (s ∷ ss) =
    rw (step (to_items (strings (s ∷ ss))), decode_strings-array (s ∷ ss)) refl

pub decode_loop-text_field :
    (key : Str) (with : Str → AllowOnlyPolicy)
    → ((s : Str) → decode_field (to_lower key) (string s) (with []) ≡ ok (with s))
    → (s : Str) → decode_loop (text_field key s) (with []) ≡ ok (with s)
unfolding decode_loop
decode_loop-text_field key with step [] = refl
decode_loop-text_field key with step (c ∷ s) = rw (step (c ∷ s)) refl

-- what `json.Marshal` and `json.Unmarshal` keep of a policy
abbrev pub IsEncodable : AllowOnlyPolicy → Type 0
IsEncodable p =
    (is_nil_repos (decoded (encode_repos p.repos)) ≡ false)
    × (is_nil (trim_space p.min_integrity) ≡ false)
    × (All (λ e. InRange e.1) p.tool_call_limits)
    × (IsDict p.tool_call_limits)

pub decode_loop-limits_field :
    (with : List (Str × ℤ) → AllowOnlyPolicy)
    → ((fs : Fields)
        → decode_field (bytes "tool-call-limits") (object fs) (with [])
          ≡ (decode_entries (entries fs) [] >>= (λ m. ok (with m))))
    → (m : List (Str × ℤ)) → All (λ e. InRange e.1) m
    → IsDict m
    → decode_loop (limits_field (bytes "tool-call-limits") m) (with []) ≡ ok (with m)
unfolding decode_loop to_lower
decode_loop-limits_field with step [] r d = refl
decode_loop-limits_field with step (e ∷ m) r d =
    rw
      (
        step (to_fields (numbers (e ∷ m))),
        entries-to_fields (numbers (e ∷ m)),
        decode_entries-numbers (e ∷ m) [] r d (Apart-nil (e ∷ m)),
      )
      refl
