-- ===== src/Server/Backend.antt =====
-- What a request of the server works on: the calls of the compositor's table (include/ipc/compositor.h)
-- with what the compositor answers, what the other parts of the system answer, and the server's state.
-- An argument that may be NULL is an `Option`.
use axctl_c.Prelude.{
  ℕ, Bool, not, List, [], ◌∷◌, ◌++◌, Option, none, some, CString, ℤ, pos, negsuc, ltb,
  if◌then◌else◌, ◌-◌, ◌%◌, ◌^◌,
}
use axctl_c.Errors.{set_error}
use axctl_c.Json.{JsonC}
use axctl_c.Types.{Workspace}
use axctl_c.Types.ToJson.{Capabilities}
use axctl_c.Cache.{Cache, Heap}
use axctl_c.Idle.State.{Manager, Wayland, Request}
use axctl_c.Idle.System.{Process}
use axctl_c.Idle.Waits.{Fired}

module _ (j : JsonC) where
  -- `axctl_compositor_t`, less the three lists. `apply_config` is `axctl_config_handler_apply` on the
  -- payload, and its parser before it.
  pub data Call : Type 0 where
    active_window : Call
    focus_window : Option CString → Call
    focus_dir : CString → Call
    close_window : CString → Call
    move_window : CString → CString → Call
    resize_window : CString → ℤ → ℤ → Call
    toggle_floating : CString → Call
    set_fullscreen : CString → Bool → Call
    set_maximized : CString → Bool → Call
    pin_window : CString → Bool → Call
    toggle_group : CString → Call
    group_nav : CString → Call
    set_layout_property : CString → Option CString → Option CString → Call
    move_window_pixel : CString → ℤ → ℤ → Call
    active_workspace : Call
    switch_workspace : Option CString → Call
    move_to_workspace : CString → Option CString → Call
    move_to_workspace_silent : CString → Option CString → Call
    toggle_special_workspace : Option CString → Call
    focus_monitor : Option CString → Call
    move_to_monitor : CString → Option CString → Call
    set_dpms : Option CString → Bool → Call
    set_layout : Option CString → Call
    get_config : Option CString → Call
    set_config : Option CString → Option CString → Call
    apply_config : CString → Call
    batch_config : j.Json → Call
    batch_keybinds : Option CString → Call
    raw_batch : Option CString → Call
    reload_config : Call
    get_animations : Call
    get_cursor_position : Call
    bind_key : CString → CString → CString → Call
    unbind_key : CString → CString → Call
    execute : Option CString → Call
    compositor_exit : Call
    switch_keyboard_layout : CString → Call
    set_keyboard_layouts : Option CString → Option CString → Call
    get_capabilities : Call

  -- The answer to a call: is it 0, and the message that `axctl_set_error` was called with.
  pub record Reply : Type 0 where
    pub ok : Bool
    pub error : Option CString

  -- The compositor during one request, with what its calls write through their pointers.
  pub record Backend : Type 0 where
    pub reply : Call → Reply
    pub active_id : Option CString
    pub workspace : Workspace
    pub config_value : Option CString → Option j.Json
    pub animations : Option j.Json
    pub cursor : ℤ × ℤ
    pub capabilities : Capabilities

  -- What else a request depends on: Wayland, `fork`, the events of a wait, the lines of `pactl`, and
  -- the names that the check of applications reads.
  pub record Host : Type 0 where
    pub wayland : Wayland
    pub fork : Option ℕ
    pub events : List Fired
    pub pactl : Option (List CString)
    pub applications : List CString

  -- `struct axctl_server`, with the thread's error message and the objects of the cache.
  pub record Server (D : Type 0) : Type 0 where
    pub cache : Cache D
    pub heap : Heap j
    pub idle_mgr : Option Manager
    pub client_fds : List ℕ
    pub error : CString

  -- The state after a method, what was asked of others on the way, and `rc != 0` and `result`.
  pub record Done (D : Type 0) : Type 0 where
    pub server : Server D
    pub calls : List Call
    pub requests : List Request
    pub processes : List Process
    -- the messages written to the client before the response
    pub sent : List j.Json
    pub failed : Bool
    pub result : Option j.Json

  module _ {D : Type 0} where
    unfoldable pub note : Server D → Option CString → Server D
    unfolding set_error
    note s none = s
    note s (some message) = record s { error = set_error s.error message }

    -- Nothing is asked of anyone.
    abbrev pub plain : Server D → Bool → Option j.Json → Done D
    plain s failed result = record {
      server = s;
      calls = [];
      requests = [];
      processes = [];
      sent = [];
      failed = failed;
      result = result;
    }

    -- Calls of the compositor one after the other, whose errors are noted; the last one's answer is `rc`.
    unfoldable pub note_all : Backend → Server D → List Call → Server D
    unfolding note
    note_all b s [] = s
    note_all b s (call ∷ calls) = note_all b (note s (b.reply call).error) calls

    unfoldable pub perform : Backend → Server D → List Call → Call → Option j.Json → Done D
    unfolding note_all
    perform b s before call result =
        let answered = (b.reply call).ok in
        record {
          server = note_all b s (before ++ call ∷ []);
          calls = before ++ call ∷ [];
          requests = [];
          processes = [];
          sent = [];
          failed = not answered;
          result = if answered then result else none;
        }

-- `(uint32_t)x`
unfoldable pub to_u32 : ℤ → ℕ
to_u32 (pos n) = n % 2 ^ 32
to_u32 (negsuc n) = 2 ^ 32 - 1 - n % 2 ^ 32

-- `json_object_new_int` on a `uint32_t`, which becomes an `int`.
unfoldable pub of_u32 : ℕ → ℤ
of_u32 n = if ltb n (2 ^ 31) then pos n else negsuc (2 ^ 32 - 1 - n)
