-- ===== src/Proxy/Router/Args.antt =====
-- How internal/proxy/router.go makes a route and its arguments.
use gh_aw_mcpg.Common.{List, Option, [], none, some, ◌∷◌}
use gh_aw_mcpg.Common.Text.{Str, bytes, str_eq}
use gh_aw_mcpg.Proxy.Router.{Piece, Route, segment, submatch, text}

abbrev pub route : List Piece → Str → (List Str → List (Str × Str)) → Route
route pattern tool extract = record { pattern = pattern; tool_name = tool; extract_args = extract }

-- a pattern below `/repos/([^/]+)/([^/]+)`
abbrev pub in_repo : List Piece → List Piece
in_repo ps = text (bytes "/repos/") ∷ segment ∷ text (bytes "/") ∷ segment ∷ ps

abbrev pub repo_args : Str → Str → List (Str × Str)
repo_args owner repo = (bytes "owner", owner) ∷ (bytes "repo", repo) ∷ []

abbrev pub pr_args : Str → Str → Str → Str → List (Str × Str)
pr_args owner repo pull_number method =
    (bytes "owner", owner)
    ∷ (bytes "repo", repo)
    ∷ (bytes "pullNumber", pull_number)
    ∷ (bytes "method", method)
    ∷ []

abbrev pub optional_method : Option Str → List (Str × Str)
optional_method none = []
optional_method (some method) = (bytes "method", method) ∷ []

abbrev pub issue_args : Str → Str → Str → Option Str → List (Str × Str)
issue_args owner repo issue_number method =
    (bytes "owner", owner)
    ∷ (bytes "repo", repo)
    ∷ (bytes "issue_number", issue_number)
    ∷ optional_method method

abbrev pub repo_method_args : Str → Str → Str → List (Str × Str)
repo_method_args owner repo method =
    (bytes "owner", owner) ∷ (bytes "repo", repo) ∷ (bytes "method", method) ∷ []

abbrev pub repo_method_resource_args : Str → Str → Str → Str → List (Str × Str)
repo_method_resource_args owner repo method resource_id =
    (bytes "owner", owner)
    ∷ (bytes "repo", repo)
    ∷ (bytes "method", method)
    ∷ (bytes "resource_id", resource_id)
    ∷ []

abbrev pub empty_extract_args : List Str → List (Str × Str)
empty_extract_args m = []

abbrev pub repo_args_extractor : List Str → List (Str × Str)
repo_args_extractor m = repo_args (submatch 1 m) (submatch 2 m)
