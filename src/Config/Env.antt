-- ===== src/Config/Env.antt =====
-- Environment variables: internal/envutil/envutil.go. The environment is the map of its variables.
use gh_aw_mcpg.Common.{Bool, List, [], false, has_key, if◌then◌else◌, is_nil, none, some, true, ◌∷◌}
use gh_aw_mcpg.Common.Dict.{lookup}
use gh_aw_mcpg.Common.Text.{Str, bytes, str_eq, to_lower}

unfoldable pub has_env_var : List (Str × Str) → Str → Bool
has_env_var env key = elim (lookup key env) [ none ↦ false | some _ ↦ true ]

-- `os.Getenv`
pub getenv : List (Str × Str) → Str → Str
getenv env key = elim (lookup key env) [ none ↦ [] | some value ↦ value ]

unfoldable pub get_env_string : List (Str × Str) → Str → Str → Str
unfolding getenv
get_env_string env key default =
    let value = getenv env key in if is_nil value then default else value

abbrev truthy : List Str
truthy = bytes "1" ∷ bytes "true" ∷ bytes "yes" ∷ bytes "on" ∷ []

abbrev falsy : List Str
falsy = bytes "0" ∷ bytes "false" ∷ bytes "no" ∷ bytes "off" ∷ []

unfoldable pub get_env_bool : List (Str × Str) → Str → Bool → Bool
unfolding getenv
get_env_bool env key default =
    let value = to_lower (getenv env key) in
    if is_nil (getenv env key)
    then default
    else if has_key truthy value
    then true
    else if has_key falsy value
    then false
    else default
