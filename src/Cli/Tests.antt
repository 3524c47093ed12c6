-- ===== src/Cli/Tests.antt =====
-- Commands and responses of src/main.c at concrete arguments.
use axctl_c.Prelude.{◌≡◌, refl, true, List, [], ◌∷◌, none, some, CString, codes, ℤ, str_eq}
use axctl_c.Json.Values.{Value, values, values-JsonLaws, entry, text, empty, lookup, text_of}
use axctl_c.Idle.State.{create}
use axctl_c.Idle.Monitors.{find_monitor, monitor_get}
use axctl_c.Table.{find_first}
use axctl_c.Server.Backend.{Done, plain}
use axctl_c.Server.Methods.{method_of, idle, idle_monitor_get, find_method}
use axctl_c.Server.Dispatch.Idle.{manager_method}
use axctl_c.Server.Dispatch.Answer.{method_text, dispatch_method, handle_request}
use axctl_c.Server.Samples.{doubles, backend, host, server}
use axctl_c.Cli.{json}
use axctl_c.Cli.Commands.{Command, close}
use axctl_c.Cli.Printing.{seen, seen_of, print_response-handle_request}
use axctl_c.Cli.Failures.{handle_request_silent}

-- `axctl window close`
abbrev close_active : Command
close_active = close none

-- A request with no parameters.
abbrev asks_for : CString → Value
asks_for method = entry (codes "method") (text method) empty

print_response-handle_request_example :
    seen values
      (handle_request values doubles backend 5 host server (asks_for (codes "Window.List")))
    ≡ seen_of values (asks_for (codes "Window.List")) (
        dispatch_method values doubles backend host 5 server
          (method_text values (asks_for (codes "Window.List")))
          (lookup (asks_for (codes "Window.List")) (codes "params")))
print_response-handle_request_example =
    print_response-handle_request values values-JsonLaws doubles backend 5 host server
      (asks_for (codes "Window.List"))

-- The second read ends the line that the first one began.
abbrev two_reads : List CString
two_reads = codes "ab\n\nc" ∷ codes "d\ne" ∷ []

-- A monitor that there is not.
abbrev asks_monitor : Value
asks_monitor = asks_for (codes "System.IdleMonitorGet")

abbrev not_found : Done values ℤ
not_found = plain values server true none

asks_monitor-method : method_of (method_text values asks_monitor) ≡ some (idle idle_monitor_get)
unfolding method_of find_method method_text lookup text_of str_eq
asks_monitor-method = refl

asks_monitor-not_found :
    manager_method values server host create none idle_monitor_get ≡ some not_found
unfolding manager_method monitor_get find_monitor find_first create
asks_monitor-not_found = refl

handle_request_silent_example :
    seen values (handle_request values doubles backend 5 host server asks_monitor)
    ≡ some (
      record server { error = [] },
      json (text (codes "error")),
      lookup asks_monitor (codes "id"),
    )
unfolding lookup str_eq
handle_request_silent_example =
    handle_request_silent values values-JsonLaws doubles backend 5 host server asks_monitor
      idle_monitor_get create not_found asks_monitor-method refl refl asks_monitor-not_found refl
