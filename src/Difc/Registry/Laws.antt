-- ===== src/Difc/Registry/Laws.antt =====
-- The registry keeps one entry to an agent and never mixes them up (internal/difc/agent.go).
use gh_aw_mcpg.Common.{
  All, List, Option-cases, [], arith, if◌then◌else◌, inl, inr, none, refl, some, ◌==◌, ◌∙◌, ◌∷◌,
  ◌≡◌, ◌≢◌, ◌⊎◌,
}
use gh_aw_mcpg.Common.Dict.{
  IsDict, delete, delete-IsDict, insert, insert-IsDict, lookup, lookup-delete, lookup-insert,
}
use gh_aw_mcpg.Common.Text.{Str, str_beq_iff, str_eq}
use gh_aw_mcpg.Difc.Agent.{AgentLabels, new_agent_labels_with_tags}
use gh_aw_mcpg.Difc.PathLabels.{found}
use gh_aw_mcpg.Difc.Registry.{
  AgentRegistry, get, get_or_create, register, remove, set_default_labels, update_agent,
}
use gh_aw_mcpg.Difc.TagSet.{Tag}

-- The entries are those of a map, and each agent is filed under its own ID.
pub record IsRegistry (r : AgentRegistry) : Type 0 where
  pub dict : IsDict r.agents
  pub filed : (k : Str) (a : AgentLabels) → lookup k r.agents ≡ some a → a.agent_id ≡ k

fresh_id : (id : Str) (s i : List Tag) → (new_agent_labels_with_tags id s i).agent_id ≡ id
unfolding new_agent_labels_with_tags
fresh_id id s i = refl

filed-insert :
    (m : List (Str × AgentLabels)) (id : Str) (v : AgentLabels)
    → ((k : Str) (a : AgentLabels) → lookup k m ≡ some a → a.agent_id ≡ k)
    → v.agent_id ≡ id
    → (k : Str) (a : AgentLabels) → lookup k (insert id v m) ≡ some a
    → a.agent_id ≡ k
filed-insert m id v filed own k a h =
    ground (arith, lookup-insert id k v m, str_beq_iff id k, filed k a)

filed-delete :
    (m : List (Str × AgentLabels)) (id : Str)
    → ((k : Str) (a : AgentLabels) → lookup k m ≡ some a → a.agent_id ≡ k)
    → (k : Str) (a : AgentLabels) → lookup k (delete id m) ≡ some a
    → a.agent_id ≡ k
filed-delete m id filed k a h = ground (arith, lookup-delete id k m, filed k a)

insert_agent :
    (r : AgentRegistry) (id : Str) (v : AgentLabels)
    → IsRegistry r
    → v.agent_id ≡ id
    → IsRegistry (record r { agents = insert id v r.agents })
insert_agent r id v inv own = record {
  dict = insert-IsDict id v r.agents inv.dict;
  filed = filed-insert r.agents id v inv.filed own;
}

get_or_create-cases :
    (seen : List (Str × AgentLabels)) (r : AgentRegistry) (id : Str)
    → ((get_or_create seen r id).0 ≡ r)
      ⊎ ((get_or_create seen r id).0 ≡ record r {
        agents =
            insert id
              (new_agent_labels_with_tags id r.default_secrecy r.default_integrity)
              r.agents;
      })
unfolding get_or_create
get_or_create-cases seen r id = ground arith

-- `GetOrCreate`, whatever the map held when the read lock was taken, keeps the registry well-formed.
pub get_or_create-IsRegistry :
    (seen : List (Str × AgentLabels)) (r : AgentRegistry) (id : Str)
    → IsRegistry r
    → IsRegistry (get_or_create seen r id).0
get_or_create-IsRegistry seen r id inv = elim (get_or_create-cases seen r id) [
  | inl same ↦ rw same inv
  | inr new ↦ rw new (insert_agent r id _ inv (fresh_id id r.default_secrecy r.default_integrity))
]

pub register-IsRegistry :
    (r : AgentRegistry) (id : Str) (s i : List Tag)
    → IsRegistry r
    → IsRegistry (register r id s i).0
unfolding register
register-IsRegistry r id s i inv = insert_agent r id _ inv (fresh_id id s i)

pub remove-IsRegistry : (r : AgentRegistry) (id : Str) → IsRegistry r → IsRegistry (remove r id)
unfolding remove
remove-IsRegistry r id inv = record {
  dict = delete-IsDict id r.agents inv.dict;
  filed = filed-delete r.agents id inv.filed;
}

pub update_agent-IsRegistry :
    (r : AgentRegistry) (id : Str) (method : AgentLabels → AgentLabels)
    → ((a : AgentLabels) → (method a).agent_id ≡ a.agent_id)
    → IsRegistry r
    → IsRegistry (update_agent r id method)
unfolding update_agent
update_agent-IsRegistry r id method keeps inv = elim (Option-cases (lookup id r.agents)) [
  | inl missing ↦ rw (missing, update_agent) inv
  | inr (a, found) ↦
      rw (found, update_agent) (insert_agent r id (method a) inv (keeps a ∙ inv.filed id a found))
]

-- The operations on a registry, with the agents' methods that keep their IDs.
pub data RegistryEvent : Type 0 where
  created : List (Str × AgentLabels) → Str → RegistryEvent
  registered : Str → List Tag → List Tag → RegistryEvent
  removed : Str → RegistryEvent
  defaults : List Tag → List Tag → RegistryEvent
  updated :
      Str
      → (method : AgentLabels → AgentLabels)
      → ((a : AgentLabels) → (method a).agent_id ≡ a.agent_id)
      → RegistryEvent

pub registry_step : AgentRegistry → RegistryEvent → AgentRegistry
registry_step r (created seen id) = (get_or_create seen r id).0
registry_step r (registered id s i) = (register r id s i).0
registry_step r (removed id) = remove r id
registry_step r (defaults s i) = set_default_labels r s i
registry_step r (updated id method keeps) = update_agent r id method

pub registry_run : AgentRegistry → List RegistryEvent → AgentRegistry
registry_run r [] = r
registry_run r (ev ∷ rest) = registry_run (registry_step r ev) rest

-- whether an event leaves the agent's labels alone: creations do, of the agent itself too
abbrev pub Spares : Str → RegistryEvent → Type 0
Spares id (registered other s i) = id ≢ other
Spares id (removed other) = id ≢ other
Spares id (updated other method keeps) = id ≢ other
Spares id _ = Unit

get-insert :
    (m : List (Str × AgentLabels)) (id other : Str) (v : AgentLabels)
    → id ≢ other
    → lookup id (insert other v m) ≡ lookup id m
get-insert m id other v apart = ground (arith, lookup-insert other id v m, str_beq_iff other id)

get-update_agent_other :
    (r : AgentRegistry) (other id : Str) (method : AgentLabels → AgentLabels)
    → id ≢ other
    → get (update_agent r other method) id ≡ get r id
unfolding get update_agent
get-update_agent_other r other id method apart = elim (Option-cases (lookup other r.agents)) [
  | inl missing ↦ rw (missing, update_agent) refl
  | inr (a, present) ↦ rw (present, update_agent) (get-insert r.agents id other (method a) apart)
]

step-get :
    (r : AgentRegistry) (ev : RegistryEvent) (id : Str) (a : AgentLabels)
    → Spares id ev
    → get r id ≡ some a
    → get (registry_step r ev) id ≡ some a
unfolding registry_step get register remove set_default_labels update_agent get_or_create
step-get r (created seen other) id a spared h =
    let fresh = new_agent_labels_with_tags other r.default_secrecy r.default_integrity in
    ground (arith, lookup-insert other id fresh r.agents, str_beq_iff other id)
step-get r (registered other s i) id a spared h = get-insert r.agents id other _ spared ∙ h
step-get r (removed other) id a spared h =
    ground (arith, lookup-delete other id r.agents, str_beq_iff other id)
step-get r (defaults s i) id a spared h = h
step-get r (updated other method keeps) id a spared h =
    get-update_agent_other r other id method spared ∙ h

-- An agent that the registry holds keeps its labels through any sequence of operations that does not
-- register, remove or update that agent; in particular through concurrent creations of that agent,
-- whatever map each of them saw under the read lock.
pub registry_run-get :
    (r : AgentRegistry) (evs : List RegistryEvent) (id : Str) (a : AgentLabels)
    → All (Spares id) evs
    → get r id ≡ some a
    → get (registry_run r evs) id ≡ some a
unfolding registry_run
registry_run-get r [] id a spared h = h
registry_run-get r (ev ∷ evs) id a (spared, rest) h =
    registry_run-get (registry_step r ev) evs id a rest (step-get r ev id a spared h)

step-IsRegistry :
    (r : AgentRegistry) (ev : RegistryEvent) → IsRegistry r → IsRegistry (registry_step r ev)
unfolding registry_step set_default_labels
step-IsRegistry r (created seen id) inv = get_or_create-IsRegistry seen r id inv
step-IsRegistry r (registered id s i) inv = register-IsRegistry r id s i inv
step-IsRegistry r (removed id) inv = remove-IsRegistry r id inv
step-IsRegistry r (defaults s i) inv = record { dict = inv.dict; filed = inv.filed }
step-IsRegistry r (updated id method keeps) inv = update_agent-IsRegistry r id method keeps inv

-- After any sequence of operations on a well-formed registry, concurrent creations included, each
-- agent is still filed once, under its own ID.
pub registry_run-IsRegistry :
    (r : AgentRegistry) (evs : List RegistryEvent) → IsRegistry r → IsRegistry (registry_run r evs)
unfolding registry_run
registry_run-IsRegistry r [] inv = inv
registry_run-IsRegistry r (ev ∷ evs) inv =
    registry_run-IsRegistry (registry_step r ev) evs (step-IsRegistry r ev inv)

-- `GetOrCreate` returns the labels of a known agent unchanged, whatever the defaults; for an unknown
-- one it makes those of the defaults; the next `Get` finds what it returned, and the labels of every
-- other agent stay.
pub get_or_create-get :
    (r : AgentRegistry) (id k : Str)
    → let (r', a) = get_or_create r.agents r id in
      (get r' k ≡ (if id == k then some a else get r k))
      × (a ≡ elim (get r id) [
        | none ↦ new_agent_labels_with_tags id r.default_secrecy r.default_integrity
        | some known ↦ known
      ])
unfolding get_or_create get
get_or_create-get r id k =
    let fresh = new_agent_labels_with_tags id r.default_secrecy r.default_integrity in
    (ground (arith, lookup-insert id k fresh r.agents, str_beq_iff id k), ground arith)

-- A method called on one agent changes what the registry holds for that agent and no other.
pub get-update_agent :
    (r : AgentRegistry) (id k : Str) (method : AgentLabels → AgentLabels) (a : AgentLabels)
    → get r id ≡ some a
    → get (update_agent r id method) k ≡ (if id == k then some (method a) else get r k)
unfolding update_agent get
get-update_agent r id k method a h =
    ground (arith, lookup-insert id k (method a) r.agents, str_beq_iff id k)
