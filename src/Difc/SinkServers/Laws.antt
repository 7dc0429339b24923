-- ===== src/Difc/SinkServers/Laws.antt =====
-- What the configured list of internal/difc/sink_server_ids.go holds.
use gh_aw_mcpg.Common.{
  List, [], arith, has_key, has_key-insert_key, insert_key, is_nil, map, not, ◌&&◌, ◌||◌, ◌∙◌, ◌∷◌,
  ◌≡◌,
}
use gh_aw_mcpg.Common.Order.{has_key-sort_strings}
use gh_aw_mcpg.Common.Text.{Str, str_beq_iff, str_eq, trim_space}
use gh_aw_mcpg.Difc.SinkServers.{
  deduplicate_loop, deduplicate_strings, is_sink_server_id, set_sink_server_ids,
}

has_key-deduplicate_loop :
    (ss out : List Str) (id : Str)
    → has_key (deduplicate_loop ss out) id
      ≡ (has_key out id || (not (is_nil id) && has_key (map trim_space ss) id))
unfolding deduplicate_loop has_key
has_key-deduplicate_loop [] out id = ground arith
has_key-deduplicate_loop (s ∷ ss) out id = ground (
  arith,
  has_key-deduplicate_loop ss out id,
  has_key-deduplicate_loop ss (insert_key (trim_space s) out) id,
  has_key-insert_key (trim_space s) id out,
  str_beq_iff (trim_space s) id,
)

-- A server is in the configured list exactly if it is one of the names given, trimmed, and has a name.
pub is_sink_server_id-set_sink_server_ids :
    (ids : List Str) (id : Str)
    → is_sink_server_id (set_sink_server_ids ids) id
      ≡ (not (is_nil id) && has_key (map trim_space ids) id)
unfolding is_sink_server_id set_sink_server_ids deduplicate_strings has_key
is_sink_server_id-set_sink_server_ids [] id = ground arith
is_sink_server_id-set_sink_server_ids (s ∷ ids) id =
    has_key-sort_strings (deduplicate_loop (s ∷ ids) []) id
    ∙ has_key-deduplicate_loop (s ∷ ids) [] id
