-- ===== src/Proxy/Router/Services.antt =====
-- The second half of the table of routes in internal/proxy/router.go: workflows, users and searches.
use gh_aw_mcpg.Common.{List, [], ◌∷◌}
use gh_aw_mcpg.Common.Text.{bytes, str_eq}
use gh_aw_mcpg.Proxy.Router.{
  Route, number, one_of, optional_rest, optional_segment, optional_skipped, segment, submatch, text,
}
use gh_aw_mcpg.Proxy.Router.Args.{
  empty_extract_args, in_repo, repo_args_extractor, repo_method_args, repo_method_resource_args,
  route,
}

-- Actions (Workflows)
abbrev pub workflow_routes : List Route
workflow_routes =
    route (in_repo (text (bytes "/actions/workflows") ∷ [])) (bytes "actions_list")
      (λ m. repo_method_args (submatch 1 m) (submatch 2 m) (bytes "list_workflows"))
    ∷ route (in_repo (text (bytes "/actions/workflows/") ∷ segment ∷ text (bytes "/runs") ∷ []))
        (bytes "actions_list")
        (λ m.
          repo_method_resource_args (submatch 1 m) (submatch 2 m) (bytes "list_workflow_runs")
            (submatch 3 m))
    ∷ route (in_repo (text (bytes "/actions/workflows/") ∷ segment ∷ [])) (bytes "actions_get")
        (λ m.
          repo_method_resource_args (submatch 1 m) (submatch 2 m) (bytes "get_workflow")
            (submatch 3 m))
    ∷ route
        (in_repo (
          text (bytes "/actions/runs/")
          ∷ number
          ∷ text (bytes "/attempts/")
          ∷ number
          ∷ text (bytes "/jobs")
          ∷ []))
        (bytes "actions_list")
        (λ m.
          repo_method_resource_args (submatch 1 m) (submatch 2 m) (bytes "list_workflow_jobs")
            (submatch 3 m))
    ∷ route
        (in_repo (
          text (bytes "/actions/runs/")
          ∷ number
          ∷ text (bytes "/attempts/")
          ∷ number
          ∷ text (bytes "/logs")
          ∷ []))
        (bytes "get_job_logs")
        (λ m.
          (bytes "owner", submatch 1 m)
          ∷ (bytes "repo", submatch 2 m)
          ∷ (bytes "run_id", submatch 3 m)
          ∷ [])
    ∷ route (in_repo (text (bytes "/actions/runs/") ∷ number ∷ text (bytes "/logs") ∷ []))
        (bytes "get_job_logs")
        (λ m.
          (bytes "owner", submatch 1 m)
          ∷ (bytes "repo", submatch 2 m)
          ∷ (bytes "run_id", submatch 3 m)
          ∷ [])
    ∷ route (in_repo (text (bytes "/actions/runs/") ∷ number ∷ text (bytes "/artifacts") ∷ []))
        (bytes "actions_list")
        (λ m.
          repo_method_resource_args (submatch 1 m) (submatch 2 m)
            (bytes "list_workflow_run_artifacts") (submatch 3 m))
    ∷ route (in_repo (text (bytes "/actions/runs/") ∷ number ∷ [])) (bytes "actions_get") (λ m.
      repo_method_resource_args (submatch 1 m) (submatch 2 m) (bytes "get_workflow_run")
        (submatch 3 m))
    ∷ route (in_repo (text (bytes "/actions/runs") ∷ [])) (bytes "actions_list")
        (λ m. repo_method_args (submatch 1 m) (submatch 2 m) (bytes "list_workflow_runs"))
    ∷ route (in_repo (text (bytes "/actions/jobs/") ∷ number ∷ [])) (bytes "actions_get") (λ m.
      repo_method_resource_args (submatch 1 m) (submatch 2 m) (bytes "get_workflow_job")
        (submatch 3 m))
    ∷ route (in_repo (text (bytes "/actions/artifacts") ∷ [])) (bytes "actions_list")
        (λ m. repo_method_args (submatch 1 m) (submatch 2 m) (bytes "list_workflow_run_artifacts"))
    ∷ route (in_repo (text (bytes "/actions/caches") ∷ [])) (bytes "actions_list")
        (λ m. repo_method_args (submatch 1 m) (submatch 2 m) (bytes "list_caches"))
    ∷ []

-- Actions secrets/variables (names only, no values)
abbrev pub actions_config_routes : List Route
actions_config_routes =
    route (in_repo (text (bytes "/actions/secrets") ∷ [])) (bytes "actions_list")
      (λ m. repo_method_args (submatch 1 m) (submatch 2 m) (bytes "list_secrets"))
    ∷ route (in_repo (text (bytes "/actions/variables") ∷ optional_segment ∷ []))
        (bytes "actions_list")
        (λ m. repo_method_args (submatch 1 m) (submatch 2 m) (bytes "list_variables"))
    ∷ route
        (in_repo (
          text (bytes "/environments/")
          ∷ segment
          ∷ text (bytes "/")
          ∷ one_of (bytes "secrets" ∷ bytes "variables" ∷ [])
          ∷ []))
        (bytes "actions_list")
        (λ m. repo_method_args (submatch 1 m) (submatch 2 m) (bytes "list_environment_config"))
    ∷ []

-- Notifications
abbrev pub notification_routes : List Route
notification_routes =
    route (text (bytes "/notifications") ∷ []) (bytes "list_notifications") empty_extract_args ∷ []

-- User API
abbrev pub user_routes : List Route
user_routes =
    route (text (bytes "/user") ∷ []) (bytes "get_me") empty_extract_args
    ∷ route
        (text (bytes "/user/")
          ∷ one_of (bytes "keys" ∷ bytes "ssh_signing_keys" ∷ bytes "gpg_keys" ∷ [])
          ∷ [])
        (bytes "get_me") empty_extract_args
    ∷ []

-- Org-scoped Actions (secrets/variables)
abbrev pub org_routes : List Route
org_routes =
    route
      (text (bytes "/orgs/")
        ∷ segment
        ∷ text (bytes "/actions/")
        ∷ one_of (bytes "secrets" ∷ bytes "variables" ∷ [])
        ∷ optional_skipped
        ∷ [])
      (bytes "actions_list")
      (λ m. (bytes "owner", submatch 1 m) ∷ (bytes "method", bytes "list_org_config") ∷ [])
    ∷ []

-- Discussions (repo-scoped, matched before generic fallback)
abbrev pub discussion_routes : List Route
discussion_routes =
    route (in_repo (text (bytes "/discussions") ∷ [])) (bytes "list_discussions")
      repo_args_extractor
    ∷ route (in_repo (text (bytes "/discussions/") ∷ number ∷ text (bytes "/comments") ∷ []))
        (bytes "get_discussion_comments")
        (λ m.
          (bytes "owner", submatch 1 m)
          ∷ (bytes "repo", submatch 2 m)
          ∷ (bytes "discussion_number", submatch 3 m)
          ∷ [])
    ∷ route (in_repo (text (bytes "/discussions/") ∷ number ∷ [])) (bytes "list_discussions") (λ m.
      (bytes "owner", submatch 1 m)
      ∷ (bytes "repo", submatch 2 m)
      ∷ (bytes "discussion_number", submatch 3 m)
      ∷ [])
    ∷ []

-- Check runs/suites (used by gh pr checks)
abbrev pub check_routes : List Route
check_routes =
    route
      (in_repo (
        text (bytes "/commits/")
        ∷ segment
        ∷ text (bytes "/check-")
        ∷ one_of (bytes "runs" ∷ bytes "suites" ∷ [])
        ∷ []))
      (bytes "pull_request_read")
      (λ m.
        (bytes "owner", submatch 1 m)
        ∷ (bytes "repo", submatch 2 m)
        ∷ (bytes "sha", submatch 3 m)
        ∷ (bytes "method", bytes "get_check_runs")
        ∷ [])
    ∷ []

-- Search APIs
abbrev pub search_routes : List Route
search_routes =
    route (text (bytes "/search/code") ∷ []) (bytes "search_code") empty_extract_args
    ∷ route (text (bytes "/search/issues") ∷ []) (bytes "search_issues") empty_extract_args
    ∷ route (text (bytes "/search/repositories") ∷ []) (bytes "search_repositories")
        empty_extract_args
    ∷ []

-- Generic repo-scoped fallback (must be last)
abbrev pub fallback_routes : List Route
fallback_routes =
    route (in_repo (optional_rest ∷ [])) (bytes "get_file_contents") repo_args_extractor ∷ []
