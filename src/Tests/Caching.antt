-- ===== src/Tests/Caching.antt =====
-- Runs of the maps and caches (internal/syncutil, and the registry of internal/difc/agent.go).
use gh_aw_mcpg.Common.{ℕ, ◌≡◌, ◌≤◌, refl, List, [], ◌∷◌, none, some, arith, nat_eq}
use gh_aw_mcpg.Common.Text.{Str, bytes, str_beq, str_eq}
use gh_aw_mcpg.Common.Dict.{lookup, insert, delete, retain}
use gh_aw_mcpg.Syncutil.TtlCache
use gh_aw_mcpg.Syncutil.TtlCache.{TtlCache, TtlEntry}
use gh_aw_mcpg.Syncutil.TtlCache.Laws.{IsCache, unless_idle, get_or_create-evicts}
use gh_aw_mcpg.Difc.Agent.{new_agent_labels_with_tags}
use gh_aw_mcpg.Difc.Registry.{AgentRegistry, get, new_agent_registry_with_defaults, register}
use gh_aw_mcpg.Difc.Registry.Laws.{RegistryEvent, created, removed, registry_run, registry_run-get}

abbrev full_cache : TtlCache ℕ ℕ
full_cache = record {
  entries =
      (1, record { value = 10; last_used = 5 }) ∷ (2, record { value = 20; last_used = 7 }) ∷ [];
  ttl = 100;
  max_size = 2;
}

full_cache-IsCache : IsCache full_cache
unfolding lookup
full_cache-IsCache = record { dict = (refl, (refl, tt)); bounded = omega arith }

get_or_create-evicts_example :
    (unless_idle full_cache 9 (lookup 3 full_cache.entries) ≡ none) × (5 ≤ 7)
unfolding lookup TtlCache.get_or_create retain insert delete
get_or_create-evicts_example =
    get_or_create-evicts full_cache 9 3 1 2 30 (record { value = 10; last_used = 5 })
      (record { value = 20; last_used = 7 }) full_cache-IsCache (omega arith) refl refl refl refl

abbrev agent_id : Str
agent_id = bytes "a"

abbrev registry : AgentRegistry
registry = new_agent_registry_with_defaults (bytes "private" ∷ []) []

abbrev agent_b : Str
agent_b = bytes "b"

abbrev known_b : AgentRegistry
known_b = (register registry agent_b (agent_id ∷ []) []).0

-- a second creation that saw the empty map, and events on another agent
abbrev sparing_events : List RegistryEvent
sparing_events = created [] agent_b ∷ created [] agent_id ∷ removed agent_id ∷ []

registry_run-get_example :
    get (registry_run known_b sparing_events) agent_b
    ≡ some (new_agent_labels_with_tags agent_b (agent_id ∷ []) [])
unfolding get register str_beq lookup insert new_agent_registry_with_defaults
registry_run-get_example =
    registry_run-get known_b sparing_events agent_b
      (new_agent_labels_with_tags agent_b (agent_id ∷ []) []) (tt, (tt, ((λ e. ground arith), tt)))
      refl
