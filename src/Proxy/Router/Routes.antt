-- ===== src/Proxy/Router/Routes.antt =====
-- The table of routes in internal/proxy/router.go, in its order.
use gh_aw_mcpg.Common.{List, [], none, some, ◌++◌, ◌∷◌}
use gh_aw_mcpg.Common.Text.{bytes, str_eq}
use gh_aw_mcpg.Proxy.Router.{Route, number, segment, submatch, tail, text}
use gh_aw_mcpg.Proxy.Router.Args.{in_repo, issue_args, pr_args, repo_args_extractor, route}
use gh_aw_mcpg.Proxy.Router.Services.{
  actions_config_routes, check_routes, discussion_routes, fallback_routes, notification_routes,
  org_routes, search_routes, user_routes, workflow_routes,
}

-- Issues
abbrev pub issue_routes : List Route
issue_routes =
    route (in_repo (text (bytes "/issues/") ∷ number ∷ text (bytes "/comments") ∷ []))
      (bytes "issue_read")
      (λ m. issue_args (submatch 1 m) (submatch 2 m) (submatch 3 m) (some (bytes "get_comments")))
    ∷ route (in_repo (text (bytes "/issues/") ∷ number ∷ text (bytes "/labels") ∷ []))
        (bytes "issue_read")
        (λ m. issue_args (submatch 1 m) (submatch 2 m) (submatch 3 m) (some (bytes "get_labels")))
    ∷ route (in_repo (text (bytes "/issues/") ∷ number ∷ [])) (bytes "issue_read")
        (λ m. issue_args (submatch 1 m) (submatch 2 m) (submatch 3 m) none)
    ∷ route (in_repo (text (bytes "/issues") ∷ [])) (bytes "list_issues") repo_args_extractor
    ∷ []

-- Pull Requests
abbrev pub pull_request_routes : List Route
pull_request_routes =
    route (in_repo (text (bytes "/pulls/") ∷ number ∷ text (bytes "/files") ∷ []))
      (bytes "pull_request_read")
      (λ m. pr_args (submatch 1 m) (submatch 2 m) (submatch 3 m) (bytes "get_files"))
    ∷ route (in_repo (text (bytes "/pulls/") ∷ number ∷ text (bytes "/reviews") ∷ []))
        (bytes "pull_request_read")
        (λ m. pr_args (submatch 1 m) (submatch 2 m) (submatch 3 m) (bytes "get_reviews"))
    ∷ route (in_repo (text (bytes "/pulls/") ∷ number ∷ text (bytes "/comments") ∷ []))
        (bytes "pull_request_read")
        (λ m. pr_args (submatch 1 m) (submatch 2 m) (submatch 3 m) (bytes "get_review_comments"))
    ∷ route (in_repo (text (bytes "/pulls/") ∷ number ∷ text (bytes "/commits") ∷ []))
        (bytes "pull_request_read")
        (λ m. pr_args (submatch 1 m) (submatch 2 m) (submatch 3 m) (bytes "get_commits"))
    ∷ route (in_repo (text (bytes "/pulls/") ∷ number ∷ [])) (bytes "pull_request_read")
        (λ m. pr_args (submatch 1 m) (submatch 2 m) (submatch 3 m) (bytes "get"))
    ∷ route (in_repo (text (bytes "/pulls") ∷ [])) (bytes "list_pull_requests") repo_args_extractor
    ∷ []

-- Commits
abbrev pub commit_routes : List Route
commit_routes =
    route (in_repo (text (bytes "/commits/") ∷ segment ∷ [])) (bytes "get_commit") (λ m.
      (bytes "owner", submatch 1 m)
      ∷ (bytes "repo", submatch 2 m)
      ∷ (bytes "sha", submatch 3 m)
      ∷ [])
    ∷ route (in_repo (text (bytes "/commits") ∷ [])) (bytes "list_commits") repo_args_extractor
    ∷ []

-- Branches and Tags
abbrev pub branch_and_tag_routes : List Route
branch_and_tag_routes =
    route (in_repo (text (bytes "/branches") ∷ [])) (bytes "list_branches") repo_args_extractor
    ∷ route (in_repo (text (bytes "/git/ref/tags/") ∷ tail ∷ [])) (bytes "get_tag") (λ m.
      (bytes "owner", submatch 1 m)
      ∷ (bytes "repo", submatch 2 m)
      ∷ (bytes "tag", submatch 3 m)
      ∷ [])
    ∷ route (in_repo (text (bytes "/tags") ∷ [])) (bytes "list_tags") repo_args_extractor
    ∷ []

-- Releases
abbrev pub release_routes : List Route
release_routes =
    route (in_repo (text (bytes "/releases/latest") ∷ [])) (bytes "get_latest_release")
      repo_args_extractor
    ∷ route (in_repo (text (bytes "/releases/tags/") ∷ tail ∷ [])) (bytes "get_release_by_tag")
        (λ m.
          (bytes "owner", submatch 1 m)
          ∷ (bytes "repo", submatch 2 m)
          ∷ (bytes "tag", submatch 3 m)
          ∷ [])
    ∷ route (in_repo (text (bytes "/releases") ∷ [])) (bytes "list_releases") repo_args_extractor
    ∷ []

-- Contents
abbrev pub contents_routes : List Route
contents_routes =
    route (in_repo (text (bytes "/contents/") ∷ tail ∷ [])) (bytes "get_file_contents") (λ m.
      (bytes "owner", submatch 1 m)
      ∷ (bytes "repo", submatch 2 m)
      ∷ (bytes "path", submatch 3 m)
      ∷ [])
    ∷ route (in_repo (text (bytes "/git/trees/") ∷ tail ∷ [])) (bytes "get_file_contents") (λ m.
      (bytes "owner", submatch 1 m)
      ∷ (bytes "repo", submatch 2 m)
      ∷ (bytes "path", submatch 3 m)
      ∷ [])
    ∷ []

-- Labels
abbrev pub label_routes : List Route
label_routes =
    route (in_repo (text (bytes "/labels/") ∷ tail ∷ [])) (bytes "get_label") (λ m.
      (bytes "owner", submatch 1 m)
      ∷ (bytes "repo", submatch 2 m)
      ∷ (bytes "name", submatch 3 m)
      ∷ [])
    ∷ route (in_repo (text (bytes "/labels") ∷ [])) (bytes "list_labels") repo_args_extractor
    ∷ []

-- the routes that have a key of their own
abbrev pub keyed_routes : List Route
keyed_routes =
    issue_routes
    ++ (pull_request_routes
        ++ (commit_routes
            ++ (branch_and_tag_routes
                ++ (release_routes
                    ++ (contents_routes
                        ++ (label_routes
                            ++ (workflow_routes
                                ++ (actions_config_routes
                                    ++ (notification_routes
                                        ++ (user_routes
                                            ++ (org_routes
                                                ++ (discussion_routes
                                                    ++ (check_routes ++ (search_routes))))))))))))))

abbrev pub routes : List Route
routes = keyed_routes ++ fallback_routes
