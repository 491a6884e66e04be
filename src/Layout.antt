-- ===== src/Layout.antt =====
-- herdr/layout.go: the panes of a layout tree. LayoutNode is an interface of four implementations; a
-- pane or a split stands for its value and for a pointer to it. Anything else, nil among it, is
-- `other_node`.
use herdr_client.Prelude.{
  ℕ, String, List, [], ◌∷◌, ◌++◌, ◌≡◌, refl, sym, ◌∙◌, ap, append_assoc, append-nil,
}
use herdr_client.Optional.{Optional}
use herdr_client.Wire.{StringMap}

pub record LayoutNodePane : Type 0 where
  pub command : Optional (List String)
  pub cwd : Optional String
  pub env : Optional StringMap
  pub label : Optional String
  pub pane_id : Optional String

pub data LayoutNode : Type 0 where
  pane_node : LayoutNodePane → LayoutNode
  -- the direction, the bit pattern of the ratio, the first and the second half
  split_node : String → ℕ → LayoutNode → LayoutNode → LayoutNode
  other_node : LayoutNode

unfoldable pub append_layout_panes : List LayoutNodePane → LayoutNode → List LayoutNodePane
append_layout_panes panes (pane_node p) = panes ++ p ∷ []
append_layout_panes panes (split_node direction ratio first second) =
    append_layout_panes (append_layout_panes panes first) second
append_layout_panes panes other_node = panes

unfoldable pub layout_panes : LayoutNode → List LayoutNodePane
unfolding append_layout_panes
layout_panes root = append_layout_panes [] root

-- the panes of a tree from left to right
abbrev pub leaves : LayoutNode → List LayoutNodePane
leaves (pane_node p) = p ∷ []
leaves (split_node direction ratio first second) = leaves first ++ leaves second
leaves other_node = []

append_layout_panes-leaves :
    (panes : List LayoutNodePane) (node : LayoutNode)
    → append_layout_panes panes node ≡ panes ++ leaves node
unfolding append_layout_panes
append_layout_panes-leaves panes (pane_node p) = refl
append_layout_panes-leaves panes (split_node direction ratio first second) =
    append_layout_panes-leaves (append_layout_panes panes first) second
    ∙ ap (λ ps. ps ++ leaves second) (append_layout_panes-leaves panes first)
    ∙ append_assoc panes (leaves first) (leaves second)
append_layout_panes-leaves panes other_node = sym (append-nil panes)

-- LayoutPanes lists the panes of a layout tree from left to right.
pub layout_panes-leaves : (root : LayoutNode) → layout_panes root ≡ leaves root
unfolding layout_panes
layout_panes-leaves root = append_layout_panes-leaves [] root
