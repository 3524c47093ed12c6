-- ===== src/Idle/State.antt =====
-- src/server/idle.c: the manager's state, what it asks of Wayland, and how it begins.
-- An `int` flag is 0 or 1 (the callers pass json-c booleans) and is a `Bool`. A table is the list of
-- its used slots, so that its length is the count. A proxy or a surface is a number. The mutex makes
-- each operation one step; the condition variables, which nothing waits for, are left out.
use axctl_c.Prelude.{ℕ, Bool, false, List, [], Option, none, ◌%◌, ◌^◌, ◌+◌}

pub record Monitor : Type 0 where
  pub id : ℕ
  pub timeout_ms : ℕ
  pub respect_inhibitors : Bool
  pub enabled : Bool
  pub is_idle : Bool
  pub deleted : Bool
  pub notification : Option ℕ
  -- the back pointer is not NULL
  pub manager : Bool
  pub signaled : Bool

pub record Inhibitor : Type 0 where
  pub id : ℕ
  pub enabled : Bool
  pub deleted : Bool
  pub surface : Option ℕ
  pub inhibitor : Option ℕ

pub record Manager : Type 0 where
  pub legacy_inhibitor_id : ℕ
  pub monitors : List Monitor
  pub next_monitor_id : ℕ
  pub inhibitors : List Inhibitor
  pub next_inhibitor_id : ℕ
  pub system_inhibited : Bool
  -- 0 when there is no child process
  pub system_inhibit_pid : ℕ
  -- `on_changed` is set
  pub on_changed : Bool

-- `MAX_MONITORS` and `MAX_INHIBITORS`.
abbrev pub max_monitors : ℕ
max_monitors = 64

abbrev pub max_inhibitors : ℕ
max_inhibitors = 64

-- `x + 1` on a `uint32_t`.
abbrev pub next_u32 : ℕ → ℕ
next_u32 x = (x + 1) % 2 ^ 32

-- The answers of Wayland during one operation: whether the globals are bound, and the new proxies,
-- `none` for a failure.
pub record Wayland : Type 0 where
  pub notifier : Bool
  pub seat : Bool
  pub get_idle_notification : ℕ → Option ℕ
  pub inhibit_manager : Bool
  pub compositor : Bool
  pub create_surface : Option ℕ
  pub create_inhibitor : ℕ → Option ℕ

-- What an operation asks of Wayland; a request that makes a proxy is recorded with the proxy.
pub data Request : Type 0 where
  get_notification : ℕ → Request
  add_listener : ℕ → Request
  destroy_notification : ℕ → Request
  make_surface : ℕ → Request
  destroy_surface : ℕ → Request
  make_inhibitor : ℕ → Request
  destroy_inhibitor : ℕ → Request
  flush : Request

-- The state and the requests after an operation, and its result. An operation that returns -1 has
-- the result `none`.
pub record Outcome (A : Type 0) : Type 0 where
  pub state : Manager
  pub requests : List Request
  pub result : Option A

abbrev pub fail : {A : Type 0} → Manager → Outcome A
fail im = record { state = im; requests = []; result = none }

-- `calloc` in `axctl_idle_manager_create`.
unfoldable pub create : Manager
create = record {
  legacy_inhibitor_id = 0;
  monitors = [];
  next_monitor_id = 0;
  inhibitors = [];
  next_inhibitor_id = 0;
  system_inhibited = false;
  system_inhibit_pid = 0;
  on_changed = false;
}

unfoldable pub set_callback : Manager → Bool → Manager
set_callback im cb = record im { on_changed = cb }
