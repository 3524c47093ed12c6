-- ===== src/Server/EventTests.antt =====
-- Events on a cache with one window.
use axctl_c.Prelude.{map, ℕ, ◌≡◌, refl, false, [], ◌∷◌, none, some, codes, str_eq, ℤ}
use axctl_c.Json.Values.{Value, values-JsonLaws, empty, entry, text, values, lookup, text_of}
use axctl_c.Types.{Window, array_init, window_created, window_closed}
use axctl_c.Cache.{
  focus_by, get_windows, get_workspaces, get_monitors, Cache, has_id, Heap, remove_window,
}
use axctl_c.Cache.Focus.{Distinct, same_id}
use axctl_c.Server.Refresh.{Compositor, server_init_cache}
use axctl_c.Server.Events.{Event, react, event_callback, remove_given}
use axctl_c.Server.Refreshed.{answers, fails, get_windows-server_init_cache}
use axctl_c.Server.{broadcast}
use axctl_c.Server.Samples.{doubles, server}
use axctl_c.Server.Dump.{watch_event}
use axctl_c.Server.Dump.Listed.{Shows, watch_event-Shows}
use axctl_c.Server.Kept.{MayJoin}
use axctl_c.Server.Distinctness.{event_callback-Distinct}

abbrev window : ℕ → Window
window n = record {
  id = some (n ∷ []);
  title = none;
  app_id = none;
  workspace_id = none;
  is_focused = false;
  is_floating = false;
  is_fullscreen = false;
  is_hidden = false;
  metadata = none;
}

abbrev one : Cache ℕ
one = record {
  windows = record { items = window 65 ∷ []; capacity = 8 };
  workspaces = array_init;
  monitors = array_init;
}

abbrev silent : Compositor ℕ
silent = record {
  list_windows = none;
  active_window = none;
  list_workspaces = none;
  list_monitors = none;
}

abbrev heap : Heap values
heap k = empty

abbrev created : Event values
created = record { kind = window_created; window = some (window 66); payload = none }

abbrev closed : Event values
closed = record {
  kind = window_closed;
  window = none;
  payload = some (entry (codes "address") (text (codes "A")) empty);
}

closed_removes :
    ((event_callback values silent heap 0 one closed).cache.windows.items ≡ [])
    × ((event_callback values silent heap 0 one closed).params
        ≡ some (entry (codes "ID") (text (codes "A")) empty))
unfolding event_callback react remove_given lookup str_eq text_of remove_window
closed_removes = (refl, refl)

one_joins : MayJoin (some (window 66)) one.windows.items
unfolding same_id has_id str_eq
one_joins = (refl, tt)

event_callback-Distinct_example :
    Distinct (event_callback values silent heap 0 one created).cache.windows.items
event_callback-Distinct_example =
    event_callback-Distinct values silent heap 0 one created tt (tt, tt) one_joins

get_windows-server_init_cache_example :
    let c' =
      server_init_cache
        (answers record { items = window 66 ∷ []; capacity = 8 } 66 [] array_init array_init)
        one in
    ((get_windows c').items ≡ map (focus_by (some (66 ∷ []))) (window 66 ∷ []))
    × ((get_workspaces c').items ≡ [])
    × ((get_monitors c').items ≡ [])
    × (server_init_cache fails one ≡ one)
unfolding array_init
get_windows-server_init_cache_example =
    get_windows-server_init_cache one (record { items = window 66 ∷ []; capacity = 8 }) 66 []
      array_init array_init

-- A compositor that answers nothing, and a window that comes while there is one subscriber.
abbrev away : Compositor ℤ
away = record {
  list_windows = none;
  active_window = none;
  list_workspaces = none;
  list_monitors = none;
}

watch_event-Shows_example :
    ((watch_event values doubles (λ v. codes "{}") away heap 0 server.cache [] created).2 ≡ [])
    × ((n : Value) × (state : Value) × ((watch_event values doubles
            (λ v. codes "{}")
            away
            heap
            0
            server.cache
            (4 ∷ [])
            created).2
          ≡ broadcast (4 ∷ []) (codes "{}"))
        × (lookup n (codes "state") ≡ some state)
        × Shows values doubles state
            (watch_event values doubles
              (λ v. codes "{}")
              away
              heap
              0
              server.cache
              (4 ∷ [])
              created).1
            (watch_event values doubles
              (λ v. codes "{}")
              away
              heap
              0
              server.cache
              (4 ∷ [])
              created).0)
watch_event-Shows_example =
    watch_event-Shows values values-JsonLaws doubles (λ v. codes "{}") away heap 0 server.cache 4 []
      created
