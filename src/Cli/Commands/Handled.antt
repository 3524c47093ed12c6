-- ===== src/Cli/Commands/Handled.antt =====
-- What a command on the command line asks the compositor for.
use axctl_c.Prelude.{ℕ, ◌≡◌, true, none, Option, CString}
use axctl_c.Json.{JsonC, JsonLaws}
use axctl_c.Types.ToJson.{Doubles}
use axctl_c.Server.Backend.{Backend, Host, Server}
use axctl_c.Server.Dispatch.Answer.{handle_request}
use axctl_c.Cli.Commands.{Command, words, request_of, is_wait}
use axctl_c.Cli.Commands.{calls_of}

module _ (j : JsonC) (laws : JsonLaws j) {D : Type 0} (d : Doubles j D) (b : Backend j) (h : Host j)
    (fd : ℕ) (s : Server j D) (parse : CString → Option j.Json) where
  -- A wait that has no answer.
  Waits : Command → Type 0
  Waits c =
      (is_wait c ≡ true)
      × (calls_of j
            (handle_request j d b fd h s (request_of j parse (words c).0 (words c).1 (words c).2))
          ≡ none)
