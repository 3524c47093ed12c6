-- ===== src/Server/Dump.antt =====
-- src/server/server.c: the state that a notification carries, and `broadcast_event` as a whole. The text
-- of a JSON object is a parameter. Objects hold the metadata by reference, and the text is made when all
-- of them are built, so that every form shows the metadata as they are then.
pub mod Listed
use axctl_c.Prelude.{ℕ, Bool, List, [], ◌∷◌, Option, none, some, CString, codes}
use axctl_c.Json.{JsonC}
use axctl_c.Types.ToJson.{
  Doubles, object_with, add_all, window_array_onto, workspace_array_onto, monitor_array_onto,
}
use axctl_c.Cache.{Cache, Heap, get_windows, get_workspaces, get_monitors}
use axctl_c.Server.{Write, broadcast}
use axctl_c.Server.Backend.{of_u32}
use axctl_c.Server.Refresh.{Compositor}
use axctl_c.Server.Events.{Event, event_callback}

module _ (j : JsonC) {D : Type 0} (d : Doubles j D) where
  unfoldable pub build_state_dump : Heap j → Cache D → j.Json × Heap j
  unfolding add_all
  build_state_dump heap c =
      let (workspaces, heap') = workspace_array_onto j heap j.new_array (get_workspaces c).items in
      let windows = window_array_onto j heap' j.new_array (get_windows c).items in
      let monitors = monitor_array_onto j d heap' j.new_array (get_monitors c).items in
      (
        object_with j (
            (codes "windows", windows)
            ∷ (codes "workspaces", workspaces)
            ∷ (codes "monitors", monitors)
            ∷ []),
        heap',
      )

  -- The parameters of a notification, if there are any.
  unfoldable pub params_field : Option j.Json → List (CString × j.Json)
  params_field none = []
  params_field (some params) = (codes "params", params) ∷ []

  unfoldable pub notification : CString → Option j.Json → j.Json → j.Json
  unfolding add_all params_field
  notification method params state =
      let named : j.Json = object_with j (
        (codes "jsonrpc", j.new_string (codes "2.0"))
        ∷ (codes "method", j.new_string method)
        ∷ []) in
      j.object_add (add_all j named (params_field params)) (codes "state") state

  module _ (text : j.Json → CString) where
    -- With no subscriber nothing is made.
    unfoldable pub broadcast_event :
        Heap j → Cache D → List ℕ → CString → Option j.Json → List Write × Heap j
    unfolding build_state_dump notification broadcast
    broadcast_event heap c [] method params = ([], heap)
    broadcast_event heap c (fd ∷ fds) method params =
        let (state, heap') = build_state_dump heap c in
        (broadcast (fd ∷ fds) (text (notification method params state)), heap')

    -- An event of the compositor, with its notification.
    unfoldable pub watch_event :
        Compositor D → Heap j → ℕ → Cache D → List ℕ → Event j → Cache D × Heap j × List Write
    unfolding event_callback broadcast_event
    watch_event comp heap fresh c fds event =
        let r = event_callback j comp heap fresh c event in
        let (writes, heap') = broadcast_event r.heap r.cache fds r.method r.params in
        (r.cache, heap', writes)

    unfoldable pub idle_monitor_changed_cb :
        Heap j → Cache D → List ℕ → ℕ → Bool → List Write × Heap j
    unfolding broadcast_event add_all of_u32
    idle_monitor_changed_cb heap c fds id is_idle =
        broadcast_event heap c fds (codes "Event.IdleMonitorChanged") (
          some (
            object_with j (
              (codes "id", j.new_int (of_u32 id)) ∷ (codes "is_idle", j.new_boolean is_idle) ∷ [])))

  -- What `System.Subscribe` writes to the new client before the response: the notification of the
  -- state, and an answer of its own with the state.
  unfoldable pub subscribe_messages : j.Json → List j.Json
  unfolding add_all
  subscribe_messages state =
      object_with j (
        (codes "jsonrpc", j.new_string (codes "2.0"))
        ∷ (codes "method", j.new_string (codes "State.Dump"))
        ∷ (codes "state", state)
        ∷ [])
      ∷ object_with j (
          (codes "jsonrpc", j.new_string (codes "2.0"))
          ∷ (codes "result", j.new_string (codes "subscribed"))
          ∷ (codes "state", state)
          ∷ [])
      ∷ []
