-- ===== src/SessionCache/Agents.antt =====
-- herdr/session_cache.go: what the two agent events do to a pane and its agent.
use herdr_client.Prelude.{Option, none, some, bool_zero, string_zero, value_or, if◌then◌else◌}
use herdr_client.Optional
use herdr_client.Optional.{Optional}
use herdr_client.OrderedCollection
use herdr_client.OrderedCollection.{OrderedCollection}
use herdr_client.Wire.{
  PaneInfo, AgentInfo, clone, workspace_zero, tab_zero, pane_zero, agent_zero, layout_zero,
}
use herdr_client.Wire.Events.{PaneAgentDetectedEvent, PaneAgentStatusChangedEvent}
use herdr_client.SessionCache.State.{SessionCache, merge_agent, refresh_agent, when_some}

-- the pane that a detection leaves behind
unfoldable pub detected_pane : PaneAgentDetectedEvent → PaneInfo → PaneInfo
detected_pane e pane =
    let named =
      if Optional.value_or_zero e.released
      then record pane { agent = Optional.absent_value; display_agent = Optional.absent_value }
      else record pane { agent = e.agent } in
    when_some (Optional.get e.final_status) (λ status p. record p { agent_status = status }) named

abbrev pub detected_in : PaneAgentDetectedEvent → Option PaneInfo → SessionCache → SessionCache
detected_in e none c =
    if Optional.value_or_zero e.released
    then record c { agents = OrderedCollection.delete e.pane_id c.agents }
    else c
detected_in e (some found) c =
    let pane = detected_pane e found in
    let c1 = record c { panes = OrderedCollection.set e.pane_id pane c.panes } in
    if Optional.value_or_zero e.released
    then record c1 { agents = OrderedCollection.delete e.pane_id c1.agents }
    else record c1 {
      agents =
          OrderedCollection.set e.pane_id
            (merge_agent
              (value_or agent_zero.zero_value (OrderedCollection.get c1.agents e.pane_id)) pane)
            c1.agents;
    }

unfoldable pub apply_agent_detected : PaneAgentDetectedEvent → SessionCache → SessionCache
apply_agent_detected e c = detected_in e (OrderedCollection.get c.panes e.pane_id) c

-- the pane that a status change leaves behind
unfoldable pub status_pane : PaneAgentStatusChangedEvent → PaneInfo → PaneInfo
status_pane e pane =
    let p1 = record pane { agent_status = e.agent_status } in
    let p2 =
      when_some (Optional.get e.agent) (λ v p. record p { agent = Optional.some_value v }) p1 in
    let p3 =
      when_some (Optional.get e.display_agent)
        (λ v p. record p { display_agent = Optional.some_value v }) p2 in
    let p4 =
      when_some (Optional.get e.title) (λ v p. record p { title = Optional.some_value v }) p3 in
    when_some (Optional.get e.state_labels)
      (λ v p. record p { state_labels = Optional.some_value (clone v) }) p4

abbrev pub status_alone :
    PaneAgentStatusChangedEvent → Option AgentInfo → SessionCache → SessionCache
status_alone e none c = c
status_alone e (some agent) c = record c {
  agents =
      OrderedCollection.set e.pane_id (record agent { agent_status = e.agent_status }) c.agents;
}

abbrev pub status_in : PaneAgentStatusChangedEvent → Option PaneInfo → SessionCache → SessionCache
status_in e none c = status_alone e (OrderedCollection.get c.agents e.pane_id) c
status_in e (some found) c =
    let pane = status_pane e found in
    let c1 = record c { panes = OrderedCollection.set e.pane_id pane c.panes } in
    refresh_agent e.pane_id pane (OrderedCollection.get c1.agents e.pane_id) c1

unfoldable pub apply_agent_status : PaneAgentStatusChangedEvent → SessionCache → SessionCache
apply_agent_status e c = status_in e (OrderedCollection.get c.panes e.pane_id) c
