-- ===== src/Niri/Tests.antt =====
-- Two lines of Niri about one window, whose title changed.
use axctl_c.Prelude.{ℤ, pos, ◌≡◌, refl, [], ◌∷◌, ◌++◌, none, some, CString, codes, str_eq}
use axctl_c.Json.{JsonKinds}
use axctl_c.Json.Values.{Value, values, kinds, entry, text, number, empty, lookup, entries_of}
use axctl_c.Json.Helpers.{json_get_object, json_get_int}
use axctl_c.Types.{array_init}
use axctl_c.Cache.{Cache, Heap, get_windows}
use axctl_c.Server.Refresh.{Compositor}
use axctl_c.Niri.Events.{niri_window, read_event}
use axctl_c.Niri.Changed.{Tells, read_event_twice}

abbrev titled : CString → Value
titled title = entry (codes "id") (number (pos 3)) (entry (codes "title") (text title) empty)

abbrev changed : CString → Value
changed title =
    entry (codes "WindowOpenedOrChanged") (entry (codes "window") (titled title) empty) empty

-- A parser that takes a line for the title.
abbrev parser : JsonKinds values ℤ
parser = record kinds { parse = λ line. some (changed line) }

abbrev nothing_cached : Cache ℤ
nothing_cached = record { windows = array_init; workspaces = array_init; monitors = array_init }

abbrev deaf : Compositor ℤ
deaf = record {
  list_windows = none;
  active_window = none;
  list_workspaces = none;
  list_monitors = none;
}

abbrev objects : Heap values
objects h = empty

changed-Tells : (line : CString) → Tells values parser line (titled line)
unfolding lookup entries_of str_eq json_get_object
changed-Tells line = record {
  obj = changed line;
  key = codes "WindowOpenedOrChanged";
  val = entry (codes "window") (titled line) empty;
  rest = [];
  parsed = refl;
  entries = refl;
  opened = refl;
  other = refl;
  shown = refl;
}

read_event_twice_example :
    let first = read_event values parser deaf objects 0 nothing_cached (codes "a") in
    ((get_windows (read_event values parser deaf first.1 0 first.0 (codes "b")).0).items
      ≡ (get_windows nothing_cached).items
        ++ niri_window values parser (titled (codes "a"))
          ∷ niri_window values parser (titled (codes "b"))
          ∷ [])
    × ((niri_window values parser (titled (codes "a"))).id
        ≡ (niri_window values parser (titled (codes "b"))).id)
unfolding lookup json_get_int str_eq
read_event_twice_example =
    read_event_twice values parser deaf 0 objects nothing_cached (codes "a") (codes "b")
      (titled (codes "a")) (titled (codes "b")) (changed-Tells (codes "a"))
      (changed-Tells (codes "b")) refl
