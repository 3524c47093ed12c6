-- ===== src/Cli.antt =====
-- src/main.c: the command line. What `main` does with its arguments, the request that a command
-- becomes, what is printed of the response, and the lines that `subscribe` reads. Arguments are the
-- strings behind the program's name. The sockets and the daemon's start are input and output.
pub mod Params
pub mod Lines
pub mod Commands
pub mod Printing
pub mod Failures
mod Tests
use axctl_c.Prelude.{
  ℕ, zero, suc, ◌+◌, ◌-◌, Bool, true, false, ◌&&◌, ◌||◌, List, [], ◌∷◌, ◌++◌, Option, none, some,
  CString, codes, str_eq, leb, ltb, ◌==◌, if◌then◌else◌, ℤ, pos,
}
use axctl_c.Json.{JsonC}

-- What the program is run for.
pub data Run : Type 0 where
  usage version subscribe : Run
  daemon : Option CString → Run
  rpc : CString → List CString → Run

unfoldable pub is_category : CString → Bool
is_category command =
    str_eq command (codes "window")
    || str_eq command (codes "workspace")
    || str_eq command (codes "monitor")
    || str_eq command (codes "layout")
    || str_eq command (codes "config")
    || str_eq command (codes "system")

unfoldable pub is_version : CString → Bool
is_version arg =
    str_eq arg (codes "--version") || str_eq arg (codes "-v") || str_eq arg (codes "version")

-- From the command on.
unfoldable pub run_command : Option CString → List CString → Run
unfolding is_category
run_command custom_config [] = usage
run_command custom_config (command ∷ args) =
    if str_eq command (codes "daemon")
    then daemon custom_config
    else if str_eq command (codes "subscribe")
    then subscribe
    else if is_category command
    then (elim args [ [] ↦ usage | action ∷ rest ↦ rpc command (action ∷ rest) ])
    else usage

unfoldable pub main : List CString → Run
unfolding is_version run_command
main [] = usage
main (first ∷ []) = if is_version first then version else run_command none (first ∷ [])
main (first ∷ second ∷ args) =
    if is_version first
    then version
    else if str_eq first (codes "-c")
    then run_command (some second) args
    else run_command none (first ∷ second ∷ args)

-- The loop of `capitalize_action`.
unfoldable pub capitalize_from : Bool → CString → CString
capitalize_from capitalize_next [] = []
capitalize_from capitalize_next (c ∷ s) = elim (c == b'-') [
  | true ↦ capitalize_from true s
  | false ↦
      (if capitalize_next && (leb b'a' c && leb c b'z') then c - 32 else c)
      ∷ capitalize_from false s
]

unfoldable pub capitalize_action : CString → CString
unfolding capitalize_from
capitalize_action s = capitalize_from true s

-- `axctl_sprintf("%s.%s", cap_cat, cap_act)`
unfoldable pub method_for : CString → CString → CString
unfolding capitalize_action
method_for category action = capitalize_action category ++ (b'.' ∷ capitalize_action action)

module _ (j : JsonC) where
  -- The request, once its parameters are made.
  unfoldable pub request_for : CString → j.Json → j.Json
  request_for method params =
      j.object_add
        (j.object_add (j.object_add j.new_object (codes "id") (j.new_int (pos 1))) (codes "method")
          (j.new_string method))
        (codes "params") params

  -- What is printed of a response.
  pub data Printed : Type 0 where
    error : CString → Printed
    success nothing : Printed
    json : j.Json → Printed

  unfoldable pub print_result : j.Json → Printed
  print_result resp = elim (j.object_get resp (codes "result")) [
    | none ↦ nothing
    | some r ↦ elim (j.get_string r) [
      | none ↦ json r
      | some s ↦ if str_eq s (codes "ok") then success else json r
    ]
  ]

  unfoldable pub print_response : j.Json → Printed
  unfolding print_result
  print_response resp = elim (j.object_get resp (codes "error")) [
    | none ↦ print_result resp
    | some err ↦
        if ltb 0 (j.get_string_len err)
        then error (elim (j.get_string err) [ none ↦ [] | some s ↦ s ])
        else print_result resp
  ]
