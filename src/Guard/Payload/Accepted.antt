-- ===== src/Guard/Payload/Accepted.antt =====
-- What the check of the payload in internal/guard/wasm_payload.go lets through.
use gh_aw_mcpg.Common.{
  All, List, Option, Option-cases, [], ap, arith, has_key, inl, inr, none, refl, some, sym, true,
  ◌∙◌, ◌∷◌, ◌≡◌, ◌≢◌, ◌⊎◌,
}
use gh_aw_mcpg.Common.Dict.{insert, keys, lookup, lookup-insert, lookup-insert_self}
use gh_aw_mcpg.Common.Json.{
  Json, array, boolean, decimal, integer, null, object, string, to_fields, to_items,
}
use gh_aw_mcpg.Common.Result.{Result-cases, is_ok, ok}
use gh_aw_mcpg.Common.Text.{Str, bytes, str_beq, str_beq_iff, str_eq, to_lower, trim_space}
use gh_aw_mcpg.Config.Integrity.{all_integrity_levels, normalize_integrity_level}
use gh_aw_mcpg.Config.Parse.{is_valid_allow_only_repos_value}
use gh_aw_mcpg.Config.Parse.Laws.{is_valid_allow_only_repos_value_iff}
use gh_aw_mcpg.Config.Policy.{decoded, normalize_repos}
use gh_aw_mcpg.Config.Scope.Array.{strings}
use gh_aw_mcpg.Guard.Answer.{failure}
use gh_aw_mcpg.Guard.Payload.{
  allow_only_entry, allow_only_keys, as_map, as_string, build_strict_label_agent_payload,
  check_level, found_allow_only, guard_policy_to_map, has_only_keys, integrity_entry, level_error,
  normalize_label_list_field, normalized_refusal_labels, required, top_level_keys,
  validated_allow_only,
}

-- The allow-only object as the checks leave it: no key but the known ones, with scopes and a level.
abbrev StrictFields : List (Str × Json) → Type 0
StrictFields m =
    (has_only_keys allow_only_keys m ≡ true)
    × ((repos : Json) × (lookup (bytes "repos") m ≡ some repos)
        × (is_valid_allow_only_repos_value (decoded repos) ≡ true))
    × ((level : Json) × (integrity_entry m ≡ some level) × (check_level level ≡ ok tt))

-- the keys that a payload and its allow-only object may have
abbrev payload_keys : List Str
payload_keys = bytes "allow-only" ∷ bytes "allowonly" ∷ bytes "trusted-bots" ∷ []

abbrev policy_keys : List Str
policy_keys =
    bytes "repos"
    ∷ bytes "min-integrity"
    ∷ bytes "integrity"
    ∷ bytes "blocked-users"
    ∷ bytes "refusal-labels"
    ∷ bytes "approval-labels"
    ∷ bytes "trusted-users"
    ∷ bytes "endorsement-reactions"
    ∷ bytes "disapproval-reactions"
    ∷ bytes "disapproval-integrity"
    ∷ bytes "endorser-min-integrity"
    ∷ []

abbrev pub KeysAmong : List Str → List (Str × Json) → Type 0
KeysAmong keys m = All (λ e. has_key keys e.0 ≡ true) m

abbrev pub IsLevelName : Str → Type 0
IsLevelName s =
    (s ≡ bytes "none")
    ⊎ ((s ≡ bytes "unapproved") ⊎ ((s ≡ bytes "approved") ⊎ (s ≡ bytes "merged")))

-- a string that names a level, in any case and with any white space around it
abbrev pub IsLevel : Json → Type 0
IsLevel v = (s : Str) × (v ≡ string s) × IsLevelName (to_lower (trim_space s))

abbrev pub HasScopesAndLevel : List (Str × Json) → Type 0
HasScopesAndLevel m =
    ((repos : Json) × (lookup (bytes "repos") m ≡ some repos)
      × (is_ok (normalize_repos (decoded repos)) ≡ true))
    × ((level : Json) × ((lookup (bytes "min-integrity") m ≡ some level)
          ⊎ ((lookup (bytes "min-integrity") m ≡ none)
              × (lookup (bytes "integrity") m ≡ some level)))
        × IsLevel level)

abbrev pub Strict : List (Str × Json) → Type 0
Strict payload =
    KeysAmong payload_keys payload
    × ((key : Str) × (fields : List (Str × Json)) × (allow_only_entry payload
          ≡ some (key, object (to_fields fields)))
        × KeysAmong policy_keys fields
        × HasScopesAndLevel fields)

KeysAmong-top_level_keys :
    (m : List (Str × Json)) → has_only_keys top_level_keys m ≡ true → KeysAmong payload_keys m
unfolding has_only_keys
KeysAmong-top_level_keys [] h = tt
KeysAmong-top_level_keys ((key, v) ∷ m) h =
    (ground arith, KeysAmong-top_level_keys m (ground arith))

KeysAmong-allow_only_keys :
    (m : List (Str × Json)) → has_only_keys allow_only_keys m ≡ true → KeysAmong policy_keys m
unfolding has_only_keys
KeysAmong-allow_only_keys [] h = tt
KeysAmong-allow_only_keys ((key, v) ∷ m) h =
    (ground arith, KeysAmong-allow_only_keys m (ground arith))

no_level : check_level (string []) ≢ ok tt
unfolding check_level as_string level_error normalize_integrity_level trim_space to_lower has_key
    str_beq
no_level h = ground arith

IsLevelName-has_key : (s : Str) → has_key all_integrity_levels s ≡ true → IsLevelName s
unfolding has_key
IsLevelName-has_key s h = ground (
  arith,
  str_beq_iff (bytes "none") s,
  str_beq_iff (bytes "unapproved") s,
  str_beq_iff (bytes "approved") s,
  str_beq_iff (bytes "merged") s,
)

IsLevel-string : (s : Str) → check_level (string s) ≡ ok tt → IsLevelName (to_lower (trim_space s))
unfolding check_level level_error as_string normalize_integrity_level
IsLevel-string s h = IsLevelName-has_key (to_lower (trim_space s)) (ground arith)

check_level-IsLevel : (v : Json) → check_level v ≡ ok tt → IsLevel v
unfolding check_level as_string
check_level-IsLevel (string s) h = (s, refl, IsLevel-string s h)
check_level-IsLevel null h = absurd (no_level h)
check_level-IsLevel (boolean b) h = absurd (no_level h)
check_level-IsLevel (integer n) h = absurd (no_level h)
check_level-IsLevel (decimal s) h = absurd (no_level h)
check_level-IsLevel (array vs) h = absurd (no_level h)
check_level-IsLevel (object fields) h = absurd (no_level h)

StrictFields-HasScopesAndLevel : (m : List (Str × Json)) → StrictFields m → HasScopesAndLevel m
unfolding integrity_entry
StrictFields-HasScopesAndLevel m (known, (repos, r, valid), (level, l, checked)) = (
  (repos, r, sym (is_valid_allow_only_repos_value_iff repos) ∙ valid),
  (level, at_level (lookup (bytes "min-integrity") m) refl, check_level-IsLevel level checked),
)
  where
    at_level :
        (o : Option Json)
        → lookup (bytes "min-integrity") m ≡ o
        → (lookup (bytes "min-integrity") m ≡ some level)
          ⊎ ((lookup (bytes "min-integrity") m ≡ none)
              × (lookup (bytes "integrity") m ≡ some level))
    at_level o e = ground arith

has_only_keys-insert :
    (allowed : List Str) (key : Str) (v : Json) (m : List (Str × Json))
    → has_key allowed key ≡ true
    → has_only_keys allowed m ≡ true
    → has_only_keys allowed (insert key v m) ≡ true
unfolding has_only_keys insert
has_only_keys-insert allowed key v [] k h = ground arith
has_only_keys-insert allowed key v ((other, w) ∷ m) k h =
    ground
      (arith, has_only_keys-insert allowed key v m k, str_beq_iff other key, str_beq_iff key other)

abbrev refusal : Str
refusal = bytes "refusal-labels"

integrity_entry-refusal :
    (labels : Json) (m : List (Str × Json))
    → integrity_entry (insert refusal labels m) ≡ integrity_entry m
unfolding integrity_entry str_beq
integrity_entry-refusal labels m = ground (
  arith,
  lookup-insert refusal (bytes "min-integrity") labels m,
  lookup-insert refusal (bytes "integrity") labels m,
)

StrictFields-refusal :
    (labels : Json) (m : List (Str × Json))
    → StrictFields m
    → StrictFields (insert refusal labels m)
unfolding has_key str_beq
StrictFields-refusal labels m (known, (repos, r, valid), (level, l, checked)) = (
  has_only_keys-insert allow_only_keys refusal labels m refl known,
  (repos, lookup-insert refusal (bytes "repos") labels m ∙ r, valid),
  (level, integrity_entry-refusal labels m ∙ l, checked),
)

-- the refusal labels are what the check may change
normalized_refusal_labels-StrictFields :
    (found : Option Json) (m result : List (Str × Json))
    → normalized_refusal_labels found m ≡ ok result
    → StrictFields m
    → StrictFields result
unfolding normalized_refusal_labels
normalized_refusal_labels-StrictFields none m result h strict =
    let same : result ≡ m = ground arith in rw same strict
normalized_refusal_labels-StrictFields (some v) m result h strict =
    elim (Result-cases (normalize_label_list_field v)) [
      | inl (labels, e) ↦
          let changed = array (to_items (strings labels)) in
          let same : result ≡ insert refusal changed m = ground arith in
          rw same (StrictFields-refusal changed m strict)
      | inr (failure, e) ↦ ground arith
    ]

validated_allow_only-StrictFields :
    (bots : Option Json) (m result : List (Str × Json))
    → validated_allow_only bots m ≡ ok result
    → StrictFields result
unfolding validated_allow_only required
validated_allow_only-StrictFields bots m result h = elim (Option-cases (lookup (bytes "repos") m)) [
  | inl no_repos ↦ ground arith
  | inr (repos, r) ↦ elim (Option-cases (integrity_entry m)) [
    | inl no_level ↦ ground arith
    | inr (level, l) ↦ elim (Result-cases (normalized_refusal_labels (lookup refusal m) m)) [
      | inr (failure, e) ↦ ground arith
      | inl (changed, e) ↦
          let same : changed ≡ result = ground arith in
          normalized_refusal_labels-StrictFields (lookup refusal m) m result (e ∙ ap ok same)
            (ground arith, (repos, r, ground arith), (level, l, ground arith))
    ]
  ]
]

allow_only_entry-insert :
    (payload : List (Str × Json)) (key : Str) (old new : Json)
    → allow_only_entry payload ≡ some (key, old)
    → (allow_only_entry (insert key new payload) ≡ some (key, new))
      × (has_key top_level_keys key ≡ true)
unfolding allow_only_entry has_key str_beq
allow_only_entry-insert payload key old new h =
    elim (Option-cases (lookup (bytes "allow-only") payload)) [
      | inr (v, e) ↦
          let same : key ≡ bytes "allow-only" = ground arith in
          rw same (ground (arith, lookup-insert_self (bytes "allow-only") new payload), refl)
      | inl missing ↦ elim (Option-cases (lookup (bytes "allowonly") payload)) [
        | inl both ↦ ground arith
        | inr (v, e) ↦
            let same : key ≡ bytes "allowonly" = ground arith in
            rw same (
              ground (
                arith,
                lookup-insert_self (bytes "allowonly") new payload,
                lookup-insert (bytes "allowonly") (bytes "allow-only") new payload,
              ),
              refl,
            )
      ]
    ]

-- An accepted payload has only the three top-level keys, and an allow-only object that has only the
-- eleven known keys, scopes whose normalisation succeeds, and a level that is a string and names one of
-- the four levels, whatever the policy given was.
pub build_strict_label_agent_payload-Strict :
    (policy : Json) (payload : List (Str × Json))
    → build_strict_label_agent_payload policy ≡ ok payload
    → Strict payload
unfolding build_strict_label_agent_payload found_allow_only
build_strict_label_agent_payload-Strict policy payload h =
    elim (Result-cases (guard_policy_to_map policy)) [
      | inr (failure, e) ↦ ground arith
      | inl (given, e) ↦ elim (Option-cases (allow_only_entry given)) [
        | inl missing ↦ ground arith
        | inr ((key, v), found) ↦ elim (Result-cases (as_map v)) [
          | inr (failure, bad) ↦ ground arith
          | inl (m, good) ↦
              elim (Result-cases (validated_allow_only (lookup (bytes "trusted-bots") given) m)) [
                | inr (failure, bad) ↦ ground arith
                | inl (result, checked) ↦
                    let new = object (to_fields result) in
                    let same : payload ≡ insert key new given = ground arith in
                    let at = allow_only_entry-insert given key v new found in
                    let strict = validated_allow_only-StrictFields _ m result checked in
                    rw same (
                      KeysAmong-top_level_keys (insert key new given)
                          (has_only_keys-insert top_level_keys key new given at.1 (ground arith)),
                      (
                        key,
                        result,
                        at.0,
                        KeysAmong-allow_only_keys result strict.0,
                        StrictFields-HasScopesAndLevel result strict,
                      ),
                    )
              ]
        ]
      ]
    ]
