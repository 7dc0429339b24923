-- ===== src/Tests/Serving.antt =====
-- Runs of a request on its way to a backend (internal/server and internal/mcp).
use Prim.Native.Nat.{min}
use gh_aw_mcpg.Mcp.Pagination.{
  Page, PageResult, collected, page, paginate_all, paginate_all_max_pages, paginate_from,
  at_page_limit,
}
use gh_aw_mcpg.Mcp.Pagination.Laws.{Chain, Within, paginate_all_iff, paginate_all_ends}
use gh_aw_mcpg.Common.{
  All, List, [], arith, false, has_key, insert_key, refl, some, true, ℕ, ◌*◌, ◌++◌, ◌+◌, ◌-◌, ◌↔◌,
  ◌∷◌, ◌≡◌, ◌≢◌,
}
use gh_aw_mcpg.Common.Dict.{insert, lookup, retain}
use gh_aw_mcpg.Common.Int.{ℤ}
use gh_aw_mcpg.Common.Text.{Str, bytes, str_beq, str_eq}
use gh_aw_mcpg.Server.CircuitBreaker.{
  CircuitBreaker, circuit_closed, circuit_open, new_circuit_breaker,
}
use gh_aw_mcpg.Server.CircuitBreaker.Calls.{
  LaterCall, call_all, call_backend, call_backend-lost_probe, is_rejected, succeeded,
  transport_error,
}
use gh_aw_mcpg.Server.CircuitBreaker.Invariant.{
  IsBreaker, allowing, breaker_run, breaker_run-IsBreaker, rate_limit, success,
}
use gh_aw_mcpg.Server.Hmac.{
  SignedRequest, accepted, check_and_set, check_body, check_signature, compute_hmac, consume,
  evict_expired, hmac_middleware, is_fresh, parse_int64, second, seen_nonce,
}
use gh_aw_mcpg.Server.Hmac.Accept.{serve}
use gh_aw_mcpg.Server.Hmac.Authentic.{IsGenuine, IsRecent, IsUnused, hmac_middleware-authentic_iff}
use gh_aw_mcpg.Server.Hmac.Replay.{hmac_middleware_no_replay, serve_all}
use gh_aw_mcpg.Server.ToolLimit.{CallBudget, calls_of}
use gh_aw_mcpg.Server.ToolLimit.Laws.{calls_in, enforce_all, enforce_all-passed}

abbrev github : Str
github = bytes "github"

breaker_run-IsBreaker_example : IsBreaker (
    breaker_run
      (new_circuit_breaker github (ℤ.pos 2) (ℤ.pos 10))
      (rate_limit 0 1 ∷ rate_limit 0 2 ∷ allowing 20 ∷ success ∷ []))
breaker_run-IsBreaker_example =
    breaker_run-IsBreaker github 2 (ℤ.pos 10)
      (rate_limit 0 1 ∷ rate_limit 0 2 ∷ allowing 20 ∷ success ∷ []) (omega arith)

abbrev open_breaker : CircuitBreaker
open_breaker = record {
  state = circuit_open;
  consecutive_errors = 3;
  opened_at = 100;
  reset_at = 0;
  probe_in_flight = false;
  server_id = github;
  threshold = 3;
  cooldown = 60;
}

abbrev early_calls : List LaterCall
early_calls = (101, 102, succeeded) ∷ (160, 161, transport_error) ∷ []

abbrev later_calls : List LaterCall
later_calls = (1_000, 1_001, succeeded) ∷ (1_000_000, 1_000_001, succeeded) ∷ []

call_backend-lost_probe_example :
    let cb' = (call_backend open_breaker 161 162 transport_error).0 in
    All (λ o. is_rejected o ≡ true) (call_all cb' later_calls).1
call_backend-lost_probe_example =
    call_backend-lost_probe open_breaker 161 162 later_calls refl (omega arith)

abbrev closed_breaker : CircuitBreaker
closed_breaker = record open_breaker { state = circuit_closed; consecutive_errors = 0 }

abbrev search_tool : Str
search_tool = bytes "search"

abbrev budget : CallBudget
budget = record { tool_call_limits = (search_tool, 2) ∷ []; tool_call_counts = [] }

enforce_all-passed_example :
    (enforce_all
      (some budget)
      (search_tool ∷ search_tool ∷ github ∷ search_tool ∷ [])
      search_tool).1
    ≡ min
        (calls_in (search_tool ∷ search_tool ∷ github ∷ search_tool ∷ []) search_tool)
        (2 - calls_of budget search_tool)
unfolding lookup str_beq
enforce_all-passed_example =
    enforce_all-passed (search_tool ∷ search_tool ∷ github ∷ search_tool ∷ []) budget search_tool 2
      refl (omega arith)

-- two pages, the second one the last
abbrev two_pages : ℕ → Str → Page ℕ
two_pages n [] = page (1 ∷ 2 ∷ []) (bytes "b")
two_pages n (c ∷ cursor) = page (3 ∷ []) []

paginate_all_iff_example :
    ((fuel : ℕ) × (paginate_all two_pages fuel paginate_all_max_pages
        ≡ some (collected (1 ∷ 2 ∷ 3 ∷ []))))
    ↔ ((n : ℕ) × Within paginate_all_max_pages n × Chain two_pages n 0 [] [] (1 ∷ 2 ∷ 3 ∷ []))
paginate_all_iff_example = paginate_all_iff two_pages paginate_all_max_pages (1 ∷ 2 ∷ 3 ∷ [])

paginate_all_ends_example :
    (r : PageResult ℕ) × (paginate_all two_pages 101 paginate_all_max_pages ≡ some r)
paginate_all_ends_example = paginate_all_ends two_pages 100 (omega arith)

two_pages-collected :
    paginate_all two_pages 2 paginate_all_max_pages ≡ some (collected (1 ∷ 2 ∷ 3 ∷ []))
unfolding paginate_all paginate_from at_page_limit has_key insert_key
two_pages-collected = refl

-- stand-ins for the two hash functions
abbrev digest : Str → Str
digest s = s

abbrev keyed_digest : Str → Str → Str
keyed_digest key s = key ++ s

abbrev secret : Str
secret = bytes "k"

abbrev signed_body : Str
signed_body = bytes "k100\nn\n/mcp\n{}"

-- at 100 s, signed
abbrev request : SignedRequest
request = record {
  timestamp = bytes "100";
  nonce = bytes "n";
  signature = signed_body;
  path = bytes "/mcp";
  body = some (bytes "{}");
  fresh_at = 100 * second;
  seen_at = 100 * second;
  set_at = 100 * second;
}

abbrev replay : SignedRequest
replay = record request { fresh_at = 130 * second; seen_at = 130 * second; set_at = 130 * second }

hmac_middleware-authentic_iff_example :
    ((hmac_middleware digest keyed_digest secret [] request).1 ≡ accepted) ↔ (
      (request.nonce ≢ [])
      × (request.signature ≢ [])
      × ((stamp : ℤ) × (parse_int64 request.timestamp ≡ some stamp)
          × IsRecent stamp request.fresh_at)
      × IsUnused [] request.nonce request.seen_at
      × IsGenuine digest keyed_digest secret request)
hmac_middleware-authentic_iff_example =
    hmac_middleware-authentic_iff digest keyed_digest secret [] request tt

-- a request from the future, and its replay with a look at the cache one nanosecond after the test of
-- its time stamp
abbrev future_request : SignedRequest
future_request = record request { timestamp = bytes "130"; signature = bytes "k130\nn\n/mcp\n{}" }

abbrev late_replay : SignedRequest
late_replay = record future_request {
  fresh_at = 160 * second;
  seen_at = 160 * second + 1;
  set_at = 160 * second + 1;
}

replayed_late :
    (hmac_middleware digest keyed_digest secret
      (hmac_middleware digest keyed_digest secret [] future_request).0
      late_replay).1
    ≡ accepted
unfolding hmac_middleware check_body check_signature consume is_fresh parse_int64 evict_expired
    compute_hmac seen_nonce check_and_set lookup insert retain str_beq
replayed_late = refl

hmac_middleware_no_replay_example :
    (hmac_middleware digest keyed_digest secret
      (serve_all digest keyed_digest secret
        (serve digest keyed_digest secret [] request).0
        (request ∷ []))
      replay).1
    ≢ accepted
unfolding hmac_middleware check_body check_signature consume is_fresh parse_int64 evict_expired
    compute_hmac seen_nonce check_and_set lookup insert retain str_beq
hmac_middleware_no_replay_example =
    hmac_middleware_no_replay digest keyed_digest secret [] request replay (request ∷ []) refl
      (omega arith) refl refl refl ((omega arith, omega arith), tt)
