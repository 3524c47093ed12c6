-- ===== src/Server/Dispatch/Effect.antt =====
-- What each method of src/server/server.c does to what the connections share: the subscribed clients, the
-- metadata objects, and what is written to the connection before the response.
use axctl_c.Prelude.{◌≡◌, ℕ, List, [], Option, none, some}
use axctl_c.Json.{JsonC}
use axctl_c.Types.ToJson.{Doubles, workspace_array_onto}
use axctl_c.Cache.{Heap, get_workspaces}
use axctl_c.Server.{subscribe}
use axctl_c.Server.Methods.{
  Method, window, workspace, monitor, layout_set, config, system, idle, workspace_list,
  workspace_active, workspace_switch, workspace_move_to, workspace_toggle_special, system_execute,
  system_get_cursor_position, system_exit, system_switch_keyboard_layout,
  system_set_keyboard_layouts, system_get_capabilities, system_subscribe,
}
use axctl_c.Server.Backend.{Server, Done}
use axctl_c.Server.Dump.{build_state_dump, subscribe_messages}

pub record Effect (j : JsonC) : Type 0 where
  pub client_fds : List ℕ
  pub heap : Heap j
  pub sent : List j.Json

module _ (j : JsonC) {D : Type 0} (s : Server j D) where
  abbrev pub unchanged : Effect j
  unchanged = record { client_fds = s.client_fds; heap = s.heap; sent = [] }

  -- The cache is the one before, and the rest is as the effect says.
  unfoldable pub Leaves : Effect j → Done j D → Type 0
  Leaves e done =
      (done.server.cache ≡ s.cache)
      × (done.server.client_fds ≡ e.client_fds)
      × (done.server.heap ≡ e.heap)
      × (done.sent ≡ e.sent)

  -- The metadata when the forms of the workspaces are made.
  abbrev pub listed : Heap j
  listed = (workspace_array_onto j s.heap j.new_array (get_workspaces s.cache).items).1

  module _ (d : Doubles j D) where
    -- Only `Workspace.List` and `System.Subscribe` make forms of workspaces, and only the second
    -- subscribes and writes.
    unfoldable pub effect : ℕ → Method → Effect j
    unfolding subscribe build_state_dump
    effect fd (system system_subscribe) = record {
      client_fds = subscribe s.client_fds fd;
      heap = listed;
      sent = subscribe_messages j d (build_state_dump j d s.heap s.cache).0;
    }
    effect fd (workspace workspace_list) = record unchanged { heap = listed }
    effect fd (workspace workspace_active) = unchanged
    effect fd (workspace workspace_switch) = unchanged
    effect fd (workspace workspace_move_to) = unchanged
    effect fd (workspace workspace_toggle_special) = unchanged
    effect fd (window m) = unchanged
    effect fd (monitor m) = unchanged
    effect fd (config m) = unchanged
    effect fd (idle m) = unchanged
    effect fd layout_set = unchanged
    effect fd (system system_execute) = unchanged
    effect fd (system system_get_cursor_position) = unchanged
    effect fd (system system_exit) = unchanged
    effect fd (system system_switch_keyboard_layout) = unchanged
    effect fd (system system_set_keyboard_layouts) = unchanged
    effect fd (system system_get_capabilities) = unchanged

    unfoldable pub effect_of : ℕ → Option Method → Effect j
    unfolding effect
    effect_of fd none = unchanged
    effect_of fd (some m) = effect fd m
