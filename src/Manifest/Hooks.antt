-- ===== src/Manifest/Hooks.antt =====
-- plugin/manifest/events.go: the events that a manifest hook may name.
use herdr_client.Prelude.{String, ◌==◌, Bool, List, [], ◌∷◌, map, any}
use herdr_client.GoText.{dot_name}

abbrev pub schema_event_kinds : List String
schema_event_kinds =
    "workspace_created" ∷ "workspace_updated" ∷ "workspace_metadata_updated" ∷ "workspace_closed"
    ∷ "workspace_renamed" ∷ "workspace_moved" ∷ "workspace_reordered" ∷ "workspace_focused"
    ∷ "worktree_created" ∷ "worktree_opened" ∷ "worktree_removed" ∷ "tab_created" ∷ "tab_closed"
    ∷ "tab_renamed" ∷ "tab_moved" ∷ "tab_focused" ∷ "pane_created" ∷ "pane_closed" ∷ "pane_updated"
    ∷ "pane_focused" ∷ "pane_moved" ∷ "pane_output_changed" ∷ "pane_exited" ∷ "pane_agent_detected"
    ∷ "pane_agent_status_changed" ∷ "layout_updated" ∷ []

abbrev pub hook_event_kinds : List String
hook_event_kinds =
    "workspace_created" ∷ "workspace_updated" ∷ "workspace_closed" ∷ "workspace_renamed"
    ∷ "workspace_moved" ∷ "workspace_reordered" ∷ "workspace_focused" ∷ "worktree_created"
    ∷ "worktree_opened" ∷ "worktree_removed" ∷ "tab_created" ∷ "tab_closed" ∷ "tab_renamed"
    ∷ "tab_moved" ∷ "tab_focused" ∷ "pane_created" ∷ "pane_closed" ∷ "pane_focused" ∷ "pane_moved"
    ∷ "pane_exited" ∷ "pane_agent_detected" ∷ "pane_agent_status_changed" ∷ []

unfoldable pub hook_event_names : List String
hook_event_names = map dot_name hook_event_kinds

unfoldable pub is_hook_event_name : String → Bool
is_hook_event_name name = any (λ kind. dot_name kind == name) hook_event_kinds
