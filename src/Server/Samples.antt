-- ===== src/Server/Samples.antt =====
-- A compositor, a host and a server at which the theorems on requests are used.
use axctl_c.Prelude.{ℤ, pos, negsuc, ◌+◌, ◌==◌, true, false, [], ◌∷◌, none, some, codes}
use axctl_c.Json.Values.{values, number, empty}
use axctl_c.Types.{Workspace, array_init}
use axctl_c.Types.ToJson.{Doubles}
use axctl_c.Idle.State.{Wayland, create}
use axctl_c.Idle.Waits.{idled, resumed}
use axctl_c.Server.Backend.{Backend, Host, Server}

abbrev pub doubles : Doubles values ℤ
doubles = record {
  is_zero_double = λ n. elim n [ pos k ↦ k == 0 | negsuc k ↦ false ];
  whole = λ n. some n;
  new_int64 = number;
  new_double = number;
}

abbrev pub one_workspace : Workspace
one_workspace = record {
  id = some (codes "1");
  name = none;
  monitor_id = none;
  is_active = true;
  is_empty = false;
  metadata = none;
}

-- The window 0xa is active, and every call succeeds.
abbrev pub backend : Backend values
backend = record {
  reply = λ call. record { ok = true; error = none };
  active_id = some (codes "0xa");
  workspace = one_workspace;
  config_value = λ key. none;
  animations = none;
  cursor = (pos 1, pos 2);
  capabilities = record {
    blur = true;
    shadows = true;
    animations = true;
    rounded_corners = true;
    workspaces_supported = true;
    windows_supported = true;
  };
}

abbrev pub wayland : Wayland
wayland = record {
  notifier = true;
  seat = true;
  get_idle_notification = λ timeout. some (timeout + 100);
  inhibit_manager = true;
  compositor = true;
  create_surface = some 7;
  create_inhibitor = λ surface. some (surface + 1);
}

abbrev pub host : Host values
host = record {
  wayland = wayland;
  fork = some 9;
  events = resumed ∷ idled ∷ [];
  pactl = some [];
  applications = [];
}

-- One subscriber, nothing cached, and a new idle manager.
abbrev pub server : Server values ℤ
server = record {
  cache = record { windows = array_init; workspaces = array_init; monitors = array_init };
  heap = λ n. empty;
  idle_mgr = some create;
  client_fds = 4 ∷ [];
  error = [];
}
