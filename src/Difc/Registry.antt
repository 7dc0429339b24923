-- ===== src/Difc/Registry.antt =====
-- internal/difc/agent.go, `AgentRegistry`: the labels of every agent, by its ID. A method that
-- returns a pointer into the registry returns the entry; a change through it is `update_agent`.
use gh_aw_mcpg.Common.{ℕ, List, [], ◌∷◌, Option, none, some, length}
use gh_aw_mcpg.Common.Text.{Str, str_eq}
use gh_aw_mcpg.Common.Dict.{lookup, insert, delete, keys}
use gh_aw_mcpg.Syncutil.MapCache.{map_get_or_create}
use gh_aw_mcpg.Difc.TagSet.{Tag}
use gh_aw_mcpg.Difc.Agent.{AgentLabels, new_agent_labels_with_tags}
pub mod Laws

pub record AgentRegistry : Type 0 where
  pub agents : List (Str × AgentLabels)
  pub default_secrecy : List Tag
  pub default_integrity : List Tag

unfoldable pub new_agent_registry : AgentRegistry
new_agent_registry = record { agents = []; default_secrecy = []; default_integrity = [] }

unfoldable pub new_agent_registry_with_defaults : List Tag → List Tag → AgentRegistry
new_agent_registry_with_defaults secrecy integrity = record {
  agents = [];
  default_secrecy = secrecy;
  default_integrity = integrity;
}

-- `seen` is the map that the read lock shows, before the write lock is taken.
unfoldable pub get_or_create :
    List (Str × AgentLabels) → AgentRegistry → Str → AgentRegistry × AgentLabels
unfolding map_get_or_create
get_or_create seen r agent_id =
    let fresh = new_agent_labels_with_tags agent_id r.default_secrecy r.default_integrity in
    let (agents, labels, _) = map_get_or_create seen r.agents agent_id (fresh, none) in
    (record r { agents = agents }, labels)

unfoldable pub get : AgentRegistry → Str → Option AgentLabels
get r agent_id = lookup agent_id r.agents

unfoldable pub register : AgentRegistry → Str → List Tag → List Tag → AgentRegistry × AgentLabels
register r agent_id secrecy_tags integrity_tags =
    let labels = new_agent_labels_with_tags agent_id secrecy_tags integrity_tags in
    (record r { agents = insert agent_id labels r.agents }, labels)

unfoldable pub remove : AgentRegistry → Str → AgentRegistry
remove r agent_id = record r { agents = delete agent_id r.agents }

unfoldable pub count : AgentRegistry → ℕ
count r = length r.agents

unfoldable pub get_all_agent_ids : AgentRegistry → List Str
get_all_agent_ids r = keys r.agents

pub set_default_labels : AgentRegistry → List Tag → List Tag → AgentRegistry
set_default_labels r secrecy integrity = record r {
  default_secrecy = secrecy;
  default_integrity = integrity;
}

-- a method of the agent called through the pointer that the registry holds
unfoldable pub update_agent : AgentRegistry → Str → (AgentLabels → AgentLabels) → AgentRegistry
update_agent r agent_id method = elim (lookup agent_id r.agents) [
  | none ↦ r
  | some labels ↦ record r { agents = insert agent_id (method labels) r.agents }
]
