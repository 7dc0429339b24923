-- ===== src/Difc/Violations.antt =====
-- internal/difc/violations.go: the words of a denial.
use gh_aw_mcpg.Common.{
  Bool, true, false, ◌&&◌, List, [], ◌∷◌, ◌++◌, none, some, length, is_nil, ltb, eqb, not, ◌==◌,
  if◌then◌else◌,
}
use gh_aw_mcpg.Common.Text.{Str, bytes, str_eq, strip_prefix, join, has_byte}
use gh_aw_mcpg.Difc.TagSet.{Tag}

-- `fmt.Sprintf("%v", tags)`
unfoldable pub show_tags : List Tag → Str
unfolding join
show_tags tags = bytes "[" ++ (join (bytes " ") tags ++ bytes "]")

-- what stands before the first colon
before_colon : Str → Str
before_colon [] = []
before_colon (c ∷ s) = let rest = before_colon s in if eqb c b':' then [] else c ∷ rest

-- `s[:idx]` if a colon stands at an index above 0
strip_scope : Str → Str
unfolding before_colon has_byte
strip_scope s =
    let level = before_colon s in if has_byte b':' s && not (is_nil level) then level else s

-- the loop of `formatIntegrityLevel`; `highest` is empty until a level is met
highest_level : List Tag → Str → Str
unfolding strip_scope
highest_level [] highest = highest
highest_level (tag ∷ rest) highest =
    let s = strip_scope tag in
    let next =
      if s == bytes "approved"
      then bytes "\"approved\""
      else if s == bytes "unapproved" && is_nil highest
      then bytes "\"unapproved\""
      else highest in
    let later = highest_level rest next in if s == bytes "merged" then bytes "\"merged\"" else later

unfoldable pub format_integrity_level : List Tag → Str
unfolding highest_level
format_integrity_level tags =
    let highest = highest_level tags [] in
    if is_nil tags then bytes "none" else if is_nil highest then show_tags tags else highest

-- the loop of `formatSecrecyLevel`: the longest scope, and whether a bare `private` was met
best_scope : List Tag → Str → Bool → Str × Bool
best_scope [] best has_private = (best, has_private)
best_scope (tag ∷ rest) best has_private = elim (strip_prefix (bytes "private:") tag) [
  | some scope ↦
      best_scope rest (if ltb (length best) (length scope) then scope else best) has_private
  | none ↦ best_scope rest best (if tag == bytes "private" then true else has_private)
]

unfoldable pub format_secrecy_level : List Tag → Str
unfolding best_scope strip_prefix
format_secrecy_level tags =
    let (best, has_private) = best_scope tags [] false in
    if is_nil tags
    then bytes "public"
    else if not (is_nil best)
    then bytes "private (" ++ (best ++ bytes ")")
    else if has_private
    then bytes "private"
    else show_tags tags

-- The reasons of a denial, as the evaluator formats them.
unfoldable pub read_integrity_reason : Str → List Tag → Str
read_integrity_reason description tags =
    bytes "Resource '"
    ++ (description
        ++ (bytes "' has lower integrity than agent requires. "
            ++ (bytes "The agent cannot read data with integrity below "
                ++ (format_integrity_level tags ++ bytes "."))))

unfoldable pub read_secrecy_reason : Str → List Tag → Str
read_secrecy_reason description tags =
    bytes "Resource '"
    ++ (description
        ++ (bytes "' has secrecy requirements that agent doesn't meet. "
            ++ (bytes "The agent is not authorized to access "
                ++ (format_secrecy_level tags ++ bytes "-scoped data."))))

unfoldable pub write_integrity_reason : Str → List Tag → Str
write_integrity_reason description tags =
    bytes "Agent lacks required integrity to write to '"
    ++ (description
        ++ (bytes "'. The agent's integrity level is insufficient; it needs "
            ++ (format_integrity_level tags ++ bytes " integrity.")))

unfoldable pub write_secrecy_reason : Str → List Tag → Str
write_secrecy_reason description tags =
    bytes "Agent carries "
    ++ (format_secrecy_level tags
        ++ (bytes "-scoped data that cannot be written to '"
            ++ (description
                ++ (bytes "' due to secrecy constraints. "
                    ++ bytes
                        "The target resource is not authorized to receive this sensitive data."))))

unfoldable pub propagation_reason : Bool → Bool → List Tag → List Tag → Str
propagation_reason secrecy_ok integrity_ok extra missing =
    let secrecy =
      if secrecy_ok then [] else (bytes "adding secrecy tags " ++ show_tags extra) ∷ [] in
    let integrity =
      if integrity_ok then [] else (bytes "dropping integrity tags " ++ show_tags missing) ∷ [] in
    bytes "Read allowed with label propagation: " ++ join (bytes " and ") (secrecy ++ integrity)
