-- ===== src/Guard.antt =====
-- internal/guard/guard.go, noop.go and write_sink.go: the interface of a guard, as far as a call of a
-- tool uses it, and the two guards written in Go. A guard may ask the backend; what it answers is a
-- value of this interface.
use gh_aw_mcpg.Common.{List, ◌++◌, Option, none, ◌==◌, if◌then◌else◌}
use gh_aw_mcpg.Common.Text.{Str, bytes, str_eq, to_lower, trim_space}
use gh_aw_mcpg.Difc.TagSet.{Tag}
use gh_aw_mcpg.Difc.Flow.{new_secrecy_label}
use gh_aw_mcpg.Difc.Mode.{OperationType, write, read_write}
use gh_aw_mcpg.Difc.Resource.{LabeledResource, new_labeled_resource}
use gh_aw_mcpg.Difc.Pipeline.{LabeledData}
pub mod Payload
pub mod Answer
pub mod LabelAgent
pub mod Pipeline
pub mod Sink

pub data ResourceOutcome : Type 0 where
  labeled : LabeledResource → OperationType → ResourceOutcome
  resource_error : Str → ResourceOutcome

-- the labels of a response; `none` is nil labels
pub data ResponseOutcome (D : Type 0) : Type 0 where
  response : Option (LabeledData D) → ResponseOutcome D
  response_error : Str → ResponseOutcome D

pub record Guard (Args D : Type 0) : Type 0 where
  pub name : Str
  pub label_resource : Str → Args → ResourceOutcome
  pub label_response : Str → D → ResponseOutcome D

unfoldable pub noop_guard : {Args D : Type 0} → Guard Args D
noop_guard = record {
  name = bytes "noop";
  label_resource = λ tool args.
      labeled (new_labeled_resource (bytes "noop resource (no restrictions)")) read_write;
  label_response = λ tool result. response none;
}

pub record WriteSinkGuard : Type 0 where
  pub accept_tags : List Tag
  pub sink_visibility : Str

-- `NewWriteSinkGuardWithVisibility`
unfoldable pub new_write_sink_guard : List Tag → Str → WriteSinkGuard
new_write_sink_guard accept sink_visibility = record {
  accept_tags = accept;
  sink_visibility = to_lower (trim_space sink_visibility);
}

-- the resource of `LabelResource`
pub sink_resource : WriteSinkGuard → Str → LabeledResource
sink_resource g tool =
    if g.sink_visibility == bytes "public"
    then new_labeled_resource (bytes "write-sink:public (" ++ (tool ++ bytes ")"))
    else record (new_labeled_resource (bytes "write-sink (" ++ (tool ++ bytes ")"))) {
      secrecy = new_secrecy_label g.accept_tags;
    }

unfoldable pub write_sink_guard : {Args D : Type 0} → WriteSinkGuard → Guard Args D
unfolding sink_resource
write_sink_guard g = record {
  name = bytes "write-sink";
  label_resource = λ tool args. labeled (sink_resource g tool) write;
  label_response = λ tool result. response none;
}
