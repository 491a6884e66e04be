-- ===== src/Wire.antt =====
-- The structs of herdr/types_gen.go that the session mirror holds. Strings, string enums and ids
-- are texts; `uint64` and smaller are numbers that the mirror only copies, and so is the `float64`
-- ratio of a split, which stands here as its bit pattern. A `map[string]string` is a function.
pub mod Events
use herdr_client.Prelude.{
  ℕ, String, Bool, Option, List, Zero, nat_zero, string_zero, bool_zero, list_zero, map_zero,
}
use herdr_client.Optional.{Optional, optional_zero}

abbrev pub StringMap : Type 0
StringMap = String → Option String

-- The deep copies that the Clone methods make are equal to what they copy: a value here holds no
-- reference that could be shared.
abbrev pub clone {ℓ} : {A : Type ℓ} → A → A
clone v = v

-- "idle", "working", "blocked", "done", "unknown", or what a newer server sends
abbrev pub AgentStatus : Type 0
AgentStatus = String

pub record AgentSessionInfo : Type 0 where
  pub agent : String
  pub kind : String
  pub source : String
  pub value : String

instance abbrev pub agent_session_zero : Zero AgentSessionInfo
agent_session_zero = record {
  zero_value = record { agent = ""; kind = ""; source = ""; value = "" };
}

pub record WorkspaceWorktreeInfo : Type 0 where
  pub checkout_path : String
  pub is_linked_worktree : Bool
  pub repo_key : String
  pub repo_name : String
  pub repo_root : String

instance abbrev pub workspace_worktree_zero : Zero WorkspaceWorktreeInfo
workspace_worktree_zero = record {
  zero_value = record {
    checkout_path = "";
    is_linked_worktree = bool_zero.zero_value;
    repo_key = "";
    repo_name = "";
    repo_root = "";
  };
}

pub record WorkspaceInfo : Type 0 where
  pub active_tab_id : String
  pub agent_status : AgentStatus
  pub focused : Bool
  pub label : String
  pub number : ℕ
  pub pane_count : ℕ
  pub tab_count : ℕ
  pub tokens : Optional StringMap
  pub workspace_id : String
  pub worktree : Optional WorkspaceWorktreeInfo

instance abbrev pub workspace_zero : Zero WorkspaceInfo
workspace_zero = record {
  zero_value = record {
    active_tab_id = "";
    agent_status = "";
    focused = bool_zero.zero_value;
    label = "";
    number = 0;
    pane_count = 0;
    tab_count = 0;
    tokens = optional_zero.zero_value;
    workspace_id = "";
    worktree = optional_zero.zero_value;
  };
}

pub record TabInfo : Type 0 where
  pub agent_status : AgentStatus
  pub focused : Bool
  pub label : String
  pub number : ℕ
  pub pane_count : ℕ
  pub tab_id : String
  pub workspace_id : String

instance abbrev pub tab_zero : Zero TabInfo
tab_zero = record {
  zero_value = record {
    agent_status = "";
    focused = bool_zero.zero_value;
    label = "";
    number = 0;
    pane_count = 0;
    tab_id = "";
    workspace_id = "";
  };
}

pub record PaneScrollInfo : Type 0 where
  pub max_offset_from_bottom : ℕ
  pub offset_from_bottom : ℕ
  pub viewport_rows : ℕ

instance abbrev pub pane_scroll_zero : Zero PaneScrollInfo
pane_scroll_zero = record {
  zero_value = record { max_offset_from_bottom = 0; offset_from_bottom = 0; viewport_rows = 0 };
}

pub record PaneInfo : Type 0 where
  pub agent : Optional String
  pub agent_session : Optional AgentSessionInfo
  pub agent_status : AgentStatus
  pub cwd : Optional String
  pub display_agent : Optional String
  pub focused : Bool
  pub foreground_cwd : Optional String
  pub label : Optional String
  pub pane_id : String
  pub restore_error : Optional String
  pub revision : ℕ
  pub scroll : Optional PaneScrollInfo
  pub state_labels : Optional StringMap
  pub tab_id : String
  pub terminal_id : String
  pub terminal_title : Optional String
  pub terminal_title_stripped : Optional String
  pub title : Optional String
  pub tokens : Optional StringMap
  pub workspace_id : String

instance abbrev pub pane_zero : Zero PaneInfo
pane_zero = record {
  zero_value = record {
    agent = optional_zero.zero_value;
    agent_session = optional_zero.zero_value;
    agent_status = "";
    cwd = optional_zero.zero_value;
    display_agent = optional_zero.zero_value;
    focused = bool_zero.zero_value;
    foreground_cwd = optional_zero.zero_value;
    label = optional_zero.zero_value;
    pane_id = "";
    restore_error = optional_zero.zero_value;
    revision = 0;
    scroll = optional_zero.zero_value;
    state_labels = optional_zero.zero_value;
    tab_id = "";
    terminal_id = "";
    terminal_title = optional_zero.zero_value;
    terminal_title_stripped = optional_zero.zero_value;
    title = optional_zero.zero_value;
    tokens = optional_zero.zero_value;
    workspace_id = "";
  };
}

pub record AgentInfo : Type 0 where
  pub agent : Optional String
  pub agent_session : Optional AgentSessionInfo
  pub agent_status : AgentStatus
  pub completion_seq : Optional ℕ
  pub cwd : Optional String
  pub display_agent : Optional String
  pub focused : Bool
  pub foreground_cwd : Optional String
  pub interactive_ready : Optional Bool
  pub launch_pending : Optional Bool
  pub name : Optional String
  pub pane_id : String
  pub revision : ℕ
  pub screen_detection_skipped : Optional Bool
  pub state_change_seq : Optional ℕ
  pub state_labels : Optional StringMap
  pub tab_id : String
  pub terminal_id : String
  pub terminal_title : Optional String
  pub terminal_title_stripped : Optional String
  pub title : Optional String
  pub tokens : Optional StringMap
  pub workspace_id : String

instance abbrev pub agent_zero : Zero AgentInfo
agent_zero = record {
  zero_value = record {
    agent = optional_zero.zero_value;
    agent_session = optional_zero.zero_value;
    agent_status = "";
    completion_seq = optional_zero.zero_value;
    cwd = optional_zero.zero_value;
    display_agent = optional_zero.zero_value;
    focused = bool_zero.zero_value;
    foreground_cwd = optional_zero.zero_value;
    interactive_ready = optional_zero.zero_value;
    launch_pending = optional_zero.zero_value;
    name = optional_zero.zero_value;
    pane_id = "";
    revision = 0;
    screen_detection_skipped = optional_zero.zero_value;
    state_change_seq = optional_zero.zero_value;
    state_labels = optional_zero.zero_value;
    tab_id = "";
    terminal_id = "";
    terminal_title = optional_zero.zero_value;
    terminal_title_stripped = optional_zero.zero_value;
    title = optional_zero.zero_value;
    tokens = optional_zero.zero_value;
    workspace_id = "";
  };
}

pub record PaneLayoutRect : Type 0 where
  pub height : ℕ
  pub width : ℕ
  pub x : ℕ
  pub y : ℕ

pub record PaneLayoutPane : Type 0 where
  pub focused : Bool
  pub pane_id : String
  pub rect : PaneLayoutRect

pub record PaneLayoutSplit : Type 0 where
  pub direction : String
  pub id : String
  pub ratio : ℕ
  pub rect : PaneLayoutRect

pub record PaneLayoutSnapshot : Type 0 where
  pub area : PaneLayoutRect
  pub focused_pane_id : String
  pub panes : List PaneLayoutPane
  pub splits : List PaneLayoutSplit
  pub tab_id : String
  pub workspace_id : String
  pub zoomed : Bool

instance abbrev pub layout_zero : Zero PaneLayoutSnapshot
layout_zero = record {
  zero_value = record {
    area = record { height = 0; width = 0; x = 0; y = 0 };
    focused_pane_id = "";
    panes = list_zero.zero_value;
    splits = list_zero.zero_value;
    tab_id = "";
    workspace_id = "";
    zoomed = bool_zero.zero_value;
  };
}

pub record SessionSnapshot : Type 0 where
  pub agents : List AgentInfo
  pub focused_pane_id : Optional String
  pub focused_tab_id : Optional String
  pub focused_workspace_id : Optional String
  pub layouts : List PaneLayoutSnapshot
  pub panes : List PaneInfo
  pub protocol : ℕ
  pub tabs : List TabInfo
  pub version : String
  pub workspaces : List WorkspaceInfo
