-- ===== src/Server.antt =====
-- src/server/server.c: the list of subscribed clients. The used part of `client_fds` is a list, so that
-- its length is `client_count`; `clients_mu` makes each operation one step. What the server writes is
-- the list of its `write` calls, whose answers it only logs.
pub mod Entries
pub mod Methods
pub mod Names
pub mod Backend
pub mod Dispatch
pub mod Clients
pub mod Refresh
pub mod Refreshed
pub mod Events
pub mod Dump
pub mod Samples
pub mod Kept
pub mod Distinctness
mod EventTests
mod Tests
use axctl_c.Prelude.{ℕ, List, [], ◌∷◌, ◌++◌, ltb, ◌==◌, if◌then◌else◌, length, CString, codes}

-- `MAX_CLIENTS`
abbrev pub max_clients : ℕ
max_clients = 64

-- What `System.Subscribe` does to the list.
unfoldable pub subscribe : List ℕ → ℕ → List ℕ
subscribe client_fds client_fd =
    if ltb (length client_fds) max_clients then client_fds ++ client_fd ∷ [] else client_fds

-- `client_fds[i] = client_fds[--client_count]` on the slots from the place `i` on, less the first:
-- the last slot of `y ∷ ys` moves to the front.
unfoldable pub last_of : ℕ → List ℕ → ℕ
last_of y [] = y
last_of y (z ∷ zs) = last_of z zs

unfoldable pub init_of : ℕ → List ℕ → List ℕ
init_of y [] = []
init_of y (z ∷ zs) = y ∷ init_of z zs

unfoldable pub fill_with_last : List ℕ → List ℕ
unfolding last_of init_of
fill_with_last [] = []
fill_with_last (y ∷ ys) = last_of y ys ∷ init_of y ys

-- The last part of `handle_connection`: the first slot with the descriptor is given up.
unfoldable pub unsubscribe : List ℕ → ℕ → List ℕ
unfolding fill_with_last
unsubscribe [] fd = []
unsubscribe (x ∷ fds) fd = if x == fd then fill_with_last fds else x ∷ unsubscribe fds fd

-- A call of `write`.
pub record Write : Type 0 where
  pub fd : ℕ
  pub bytes : CString

-- The loop of `broadcast_event` for the text of the notification.
unfoldable pub broadcast : List ℕ → CString → List Write
broadcast [] text = []
broadcast (fd ∷ fds) text =
    record { fd = fd; bytes = text } ∷ record { fd = fd; bytes = codes "\n" } ∷ broadcast fds text
