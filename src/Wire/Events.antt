-- ===== src/Wire/Events.antt =====
-- The event payloads of herdr/events_gen.go, and the ResyncEvent of herdr/session.go. An event of
-- one or two fields carries them as the constructor's arguments, in the order of the struct.
use herdr_client.Prelude.{ℕ, String, Bool, List}
use herdr_client.Optional.{Optional}
use herdr_client.Wire.{
  AgentStatus, StringMap, WorkspaceInfo, TabInfo, PaneInfo, PaneScrollInfo, PaneLayoutSnapshot,
}

pub record WorktreeInfo : Type 0 where
  pub branch : Optional String
  pub is_bare : Bool
  pub is_detached : Bool
  pub is_linked_worktree : Bool
  pub is_prunable : Bool
  pub label : String
  pub open_workspace_id : Optional String
  pub path : String

pub record PaneReadResult : Type 0 where
  pub format : String
  pub pane_id : String
  pub revision : ℕ
  pub source : String
  pub tab_id : String
  pub text : String
  pub truncated : Bool
  pub workspace_id : String

pub record WorkspaceRenamedEvent : Type 0 where
  pub label : String
  pub workspace_id : String

pub record WorkspaceMovedEvent : Type 0 where
  pub insert_index : ℕ
  pub workspace_id : String
  pub workspaces : List WorkspaceInfo

pub record WorkspaceReorderedEvent : Type 0 where
  pub before_workspace_id : Optional String
  pub workspace_ids : List String
  pub workspaces : List WorkspaceInfo

pub record WorkspaceClosedEvent : Type 0 where
  pub workspace : Optional WorkspaceInfo
  pub workspace_id : String

pub record WorktreeOpenedEvent : Type 0 where
  pub already_open : Bool
  pub workspace : WorkspaceInfo
  pub worktree : WorktreeInfo

pub record WorktreeRemovedEvent : Type 0 where
  pub forced : Bool
  pub workspace : Optional WorkspaceInfo
  pub workspace_id : String
  pub worktree : WorktreeInfo

pub record TabRenamedEvent : Type 0 where
  pub label : String
  pub tab_id : String
  pub workspace_id : String

pub record TabMovedEvent : Type 0 where
  pub insert_index : ℕ
  pub tab_id : String
  pub tabs : List TabInfo
  pub workspace_id : String

pub record PaneMovedEvent : Type 0 where
  pub closed_tab_id : Optional String
  pub closed_workspace_id : Optional String
  pub created_tab : Optional TabInfo
  pub created_workspace : Optional WorkspaceInfo
  pub pane : PaneInfo
  pub previous_pane_id : String
  pub previous_tab_id : String
  pub previous_workspace_id : String

pub record PaneOutputChangedEvent : Type 0 where
  pub pane_id : String
  pub revision : ℕ
  pub workspace_id : String

pub record PaneOutputMatchedEvent : Type 0 where
  pub matched_line : String
  pub pane_id : String
  pub read : PaneReadResult

pub record PaneScrollChangedEvent : Type 0 where
  pub pane_id : String
  pub scroll : PaneScrollInfo
  pub workspace_id : String

pub record PaneAgentDetectedEvent : Type 0 where
  pub agent : Optional String
  pub final_status : Optional AgentStatus
  pub pane_id : String
  pub released : Optional Bool
  pub workspace_id : String

pub record PaneAgentStatusChangedEvent : Type 0 where
  pub agent : Optional String
  pub agent_status : AgentStatus
  pub display_agent : Optional String
  pub pane_id : String
  pub state_labels : Optional StringMap
  pub title : Optional String
  pub workspace_id : String

pub data Event : Type 0 where
  workspace_created : WorkspaceInfo → Event
  workspace_updated : WorkspaceInfo → Event
  workspace_metadata_updated : WorkspaceInfo → Event
  workspace_renamed : WorkspaceRenamedEvent → Event
  workspace_moved : WorkspaceMovedEvent → Event
  workspace_reordered : WorkspaceReorderedEvent → Event
  workspace_focused : String → Event
  workspace_closed : WorkspaceClosedEvent → Event
  worktree_created : WorkspaceInfo → WorktreeInfo → Event
  worktree_opened : WorktreeOpenedEvent → Event
  worktree_removed : WorktreeRemovedEvent → Event
  tab_created : TabInfo → Event
  tab_renamed : TabRenamedEvent → Event
  tab_moved : TabMovedEvent → Event
  tab_focused tab_closed : String → String → Event
  pane_created : PaneInfo → Event
  pane_updated : PaneInfo → Event
  pane_moved : PaneMovedEvent → Event
  pane_focused pane_closed pane_exited : String → String → Event
  pane_output_changed : PaneOutputChangedEvent → Event
  pane_output_matched : PaneOutputMatchedEvent → Event
  pane_scroll_changed : PaneScrollChangedEvent → Event
  pane_agent_detected : PaneAgentDetectedEvent → Event
  pane_agent_status_changed : PaneAgentStatusChangedEvent → Event
  layout_updated : PaneLayoutSnapshot → Event
