-- ===== src/Lib.antt =====
-- A verification of axctl, a server that gives window managers (Hyprland, Niri, Mango) one JSON-RPC
-- interface over a Unix socket.
--
-- The parts of the program, and where they are modelled:
--
-- * src/utils/strutil.c, the string helpers: Strutil. A function `axctl_f` is `f` here, and a loop in
--   it is a function of its own. A string is its list of bytes, a pointer that may be NULL an `Option`.
-- * src/ipc/types.c, the records of windows, workspaces and monitors, their growing arrays and their
--   JSON forms: Types. The arrays of the three types have the same code and are modelled once.
-- * src/ipc/cache.c, the state cache that the server keeps: Cache, in which `axctl_cache_f` is `f`. The
--   metadata objects of json-c lie in a heap, because copies of a record share them.
-- * src/ipc/colors.c, the colors of the compositors: Colors.
-- * src/server/idle.c, idle monitors and inhibitors over Wayland: Idle. State has the manager, as the
--   source's struct with its two tables as lists of used slots; Monitors, Inhibitors and System have
--   the operations (`axctl_idle_f` is `f`), which answer the new state, the requests made of Wayland
--   and the result; Calls has sequences of them, with the notifications that Wayland sends; Waits has
--   the blocking waits, and Checks the checks of media and applications. The other modules prove.
-- * src/server/server.c, the server: Server has the list of subscribed clients, with a broadcast as
--   the list of its `write` calls; Server.Refresh has `server_init_cache`, and Server.Events has
--   `event_callback`, which answers the cache, the metadata objects and the notification; Server.Dump
--   has the state that a notification carries and `broadcast_event` as a whole. All of them work on
--   the cache of Cache, with the answers of the compositor as a parameter. Server.Methods has the
--   names of `dispatch_method`, Server.Dispatch its branches, which make the calls of Server.Backend,
--   and Server.Dispatch.Answer the requests and responses of `handle_connection`.
-- * src/main.c, the command line: Cli, with what `main` does with its arguments, the request that a
--   command becomes, what is printed of the response, and the lines that `subscribe` reads.
--   Cli.Commands puts the two ends together: from a command to the calls of the compositor.
-- * src/ipc/config_types.c, the universal configuration and its parser: Config and Config.Parse.
--   src/server/config_handler.c, from a configuration to the files: Config.Handler.
-- * src/ipc/hyprland/generator.c, src/ipc/niri/generator.c and src/ipc/mango/generator.c, the texts for
--   the compositors: Hyprland, Niri and Mango; Text has the conversions of `printf` that they use.
-- * src/ipc/hyprland/client.c and src/ipc/niri/client.c, of which only the event sockets are modelled:
--   Hyprland.Events and Niri.Events have the lines and the events that they are, with the server's
--   callback behind them.
-- * src/utils/json_helpers.c, the getters with their defaults: Json.Helpers. src/ipc/errors.c, the
--   error message: Errors; the message is a part of the state of the server.
--
-- Prelude has the tests on numbers, the functions on lists and the C strings that all of them use,
-- Table the search and the update of the first matching slot, Json the operations of json-c and its
-- documented laws, which are parameters. Tests modules run the definitions and apply the theorems
-- at concrete inputs, with the json-c of Json.Values and the server of Server.Samples.
--
-- The answers of Wayland (proxies, failures, the globals that are bound) are parameters of each
-- operation; so are a child's process id and its end, the answers of the compositor, the files that
-- can be opened, and the conversion `%.2f`. A `uint32_t` counter wraps at 2 ^ 32. The limits are the
-- source's: 64 monitors, 64 inhibitors, 64 clients, 8 as the first capacity of an array, 1024 bytes of
-- an error message, 255 of an application's name. The loops are structural recursion on a string or a
-- list; `axctl_str_icontains` counts the rounds that the source computes beforehand, and the digits of
-- a number are bounded by the number itself plus one, since each division makes it smaller. A wait of
-- the idle manager that has used up the events that come is `blocked`, which is an answer of its own.
--
-- The one read in which the client takes the response is taken to hold the first message whole.
--
-- Not modelled: memory given back and allocation that fails (but for the growth of an array), since
-- the code mostly does not test for it; the locks, each of which makes its operation one step; JSON
-- values that are null; the sockets, the threads, the start and the end of the server and the daemon,
-- and `axctl_idle_manager_destroy`; the reading of `hyprctl clients` and of /proc, whose names are a
-- parameter of the check of applications; the reader of the TOML file (src/config/config.c), the
-- choice of the compositor (src/ipc/compositor.c) and the clients of the three compositors
-- (src/ipc/*/client.c) but for the events of Hyprland and Niri; the Wayland client, which only calls
-- libwayland. In `dispatch_method` the method `Config.Apply` is one call with an answer; what it does
-- stands in Config. The logs are output only, and the protocol files are generated.
mod Prelude
mod Table
mod Json
pub mod Types
pub mod Strutil
pub mod Errors
pub mod Cache
pub mod Colors
pub mod Idle
pub mod Server
pub mod Cli
mod Text
pub mod Hyprland
pub mod Niri
pub mod Mango
pub mod Config
