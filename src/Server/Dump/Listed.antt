-- ===== src/Server/Dump/Listed.antt =====
-- What the state of a notification lists.
use axctl_c.Prelude.{
  ◌≡◌, refl, ◌∙◌, ℕ, ◌∷◌, [], List, map, Option, none, some, CString, codes, str_eq,
}
use axctl_c.Json.{JsonC, JsonLaws}
use axctl_c.Types.ToJson.{
  Doubles, window_to_json, monitor_to_json, workspace_array_onto, window_array_onto,
  monitor_array_onto, add_all,
}
use axctl_c.Types.Focused.{
  workspace_form, items-workspace_array_onto, items-window_array_onto, items-monitor_array_onto,
}
use axctl_c.Cache.{Cache, Heap, get_windows, get_workspaces, get_monitors}
use axctl_c.Server.Dump.{build_state_dump, notification, params_field, broadcast_event, watch_event}
use axctl_c.Server.{broadcast}
use axctl_c.Server.Refresh.{Compositor}
use axctl_c.Server.Events.{Event, event_callback}

module _ (j : JsonC) where
  -- The items of the array under a key.
  unfoldable pub listed : j.Json → CString → Option (List j.Json)
  listed o key = elim (j.object_get o key) [ none ↦ none | some a ↦ j.array_items a ]

  -- The state lists the cached windows, workspaces and monitors, all of them and in order.
  abbrev pub Shows : {D : Type 0} → Doubles j D → j.Json → Heap j → Cache D → Type 0
  Shows d state heap c =
      (listed state (codes "windows") ≡ some (map (window_to_json j heap) (get_windows c).items))
      × (listed state (codes "workspaces")
          ≡ some (map (workspace_form j heap) (get_workspaces c).items))
      × (listed state (codes "monitors")
          ≡ some (map (monitor_to_json j d heap) (get_monitors c).items))

module _ (j : JsonC) (laws : JsonLaws j) {D : Type 0} (d : Doubles j D) where
  build_state_dump-Shows :
      (heap : Heap j) (c : Cache D)
      → Shows j d (build_state_dump j d heap c).0 (build_state_dump j d heap c).1 c
  unfolding build_state_dump listed str_eq
  build_state_dump-Shows heap c =
      let heap' = (workspace_array_onto j heap j.new_array (get_workspaces c).items).1 in
      let ws : j.Json = (workspace_array_onto j heap j.new_array (get_workspaces c).items).0 in
      let windows : j.Json = window_array_onto j heap' j.new_array (get_windows c).items in
      let monitors : j.Json = monitor_array_onto j d heap' j.new_array (get_monitors c).items in
      let o : j.Json = j.object_add j.new_object (codes "windows") windows in
      let o' : j.Json = j.object_add o (codes "workspaces") ws in
      let get_windows_key =
        laws.get-add o' monitors (codes "monitors") (codes "windows")
        ∙ laws.get-add o ws (codes "workspaces") (codes "windows")
        ∙ laws.get-add j.new_object windows (codes "windows") (codes "windows") in
      let get_workspaces_key =
        laws.get-add o' monitors (codes "monitors") (codes "workspaces")
        ∙ laws.get-add o ws (codes "workspaces") (codes "workspaces") in
      let get_monitors_key = laws.get-add o' monitors (codes "monitors") (codes "monitors") in
      (
        rw (get_windows_key, listed)
            (items-window_array_onto j laws heap' j.new_array (get_windows c).items []
              laws.items-new_array),
        rw (get_workspaces_key, listed)
            (items-workspace_array_onto j laws heap j.new_array (get_workspaces c).items []
              laws.items-new_array),
        rw (get_monitors_key, listed)
            (items-monitor_array_onto j laws d heap' j.new_array (get_monitors c).items []
              laws.items-new_array),
      )

  get_state-notification :
      (method : CString) (params : Option j.Json) (state : j.Json)
      → j.object_get (notification j d method params state) (codes "state") ≡ some state
  unfolding notification str_eq
  get_state-notification method params state =
      laws.get-add (add_all j _ (params_field j d params)) state (codes "state") (codes "state")

  -- When an event of the compositor comes, and there is a subscriber, all are written the text of one
  -- notification, whose state lists the windows, workspaces and monitors that are cached after the
  -- event, all of them and in order, with the metadata as they are then. With no subscriber nothing is
  -- written.
  pub watch_event-Shows :
      (text : j.Json → CString) (comp : Compositor D) (heap : Heap j) (fresh : ℕ) (c : Cache D)
      (fd : ℕ) (fds : List ℕ) (event : Event j)
      → ((watch_event j d text comp heap fresh c [] event).2 ≡ [])
        × ((n : j.Json) × (state : j.Json) × ((watch_event j d text comp heap fresh c
                (fd ∷ fds)
                event).2
              ≡ broadcast (fd ∷ fds) (text n))
            × (j.object_get n (codes "state") ≡ some state)
            × Shows j d state
                (watch_event j d text comp heap fresh c (fd ∷ fds) event).1
                (watch_event j d text comp heap fresh c (fd ∷ fds) event).0)
  unfolding watch_event broadcast_event
  watch_event-Shows text comp heap fresh c fd fds event =
      let r = event_callback j comp heap fresh c event in
      let state : j.Json = (build_state_dump j d r.heap r.cache).0 in
      (
        refl,
        (
          notification j d r.method r.params state,
          state,
          refl,
          get_state-notification r.method r.params state,
          build_state_dump-Shows r.heap r.cache,
        ),
      )
