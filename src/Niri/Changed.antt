-- ===== src/Niri/Changed.antt =====
-- What the lines of Niri about one window leave in the cache of the server: src/ipc/niri/client.c and
-- src/server/server.c together.
use axctl_c.Prelude.{
  ◌≡◌, refl, sym, ap, ◌∙◌, ℕ, List, [], ◌∷◌, ◌++◌, some, CString, codes, str_eq, pos, append_assoc,
  true, false,
}
use axctl_c.Json.{JsonC, JsonKinds}
use axctl_c.Json.Helpers.{json_get_object, json_get_int}
use axctl_c.Text.{show_int}
use axctl_c.Types.{Window, window_dup}
use axctl_c.Types.Arrays.{array_push-items}
use axctl_c.Cache.{Cache, Heap, add_window, get_windows}
use axctl_c.Cache.Windows.{window_dup_lem, get_windows-items}
use axctl_c.Server.Refresh.{Compositor}
use axctl_c.Server.Events.{event_callback, react, add_given}
use axctl_c.Niri.Events.{niri_window, is_opened, niri_event, event_of_object, event_of, read_event}

module _ (j : JsonC) {D : Type 0} (k : JsonKinds j D) where
  -- A line that says that a window was opened, or that it changed.
  pub record Tells (line : CString) (w : j.Json) : Type 0 where
    pub obj : j.Json
    pub key : CString
    pub val : j.Json
    pub rest : List (CString × j.Json)
    pub parsed : k.parse line ≡ some obj
    pub entries : k.entries obj ≡ some ((key, val) ∷ rest)
    pub opened : is_opened j k key ≡ true
    pub other : str_eq key (codes "WorkspacesChanged") ≡ false
    pub shown : json_get_object j k val (codes "window") ≡ some w

  module _ (comp : Compositor D) (fresh : ℕ) where
    read_event-Tells :
        (heap : Heap j) (c : Cache D) (line : CString) (w : j.Json)
        → Tells line w
        → (read_event j k comp heap fresh c line).0 ≡ add_window c (niri_window j k w)
    unfolding read_event event_of event_of_object niri_event event_callback react add_given
    read_event-Tells heap c line w t =
        rw (t.parsed, read_event) rw (t.entries) rw (t.other) rw (t.opened) rw (t.shown) refl

    items-add_window :
        (c : Cache D) (w : Window) → (add_window c w).windows.items ≡ c.windows.items ++ w ∷ []
    unfolding add_window
    items-add_window c w =
        array_push-items c.windows (window_dup w)
        ∙ ap (λ v. c.windows.items ++ v ∷ []) (window_dup_lem w)

    -- Each line that says that a window was opened or that it changed puts another window behind the
    -- cached ones: after two lines about a window with one number, the getter answers both windows,
    -- with the same id.
    pub read_event_twice :
        (heap : Heap j) (c : Cache D) (line line' : CString) (w w' : j.Json)
        → Tells line w
        → Tells line' w'
        → json_get_int j w (codes "id") (pos 0) ≡ json_get_int j w' (codes "id") (pos 0)
        → let first = read_event j k comp heap fresh c line in
          ((get_windows (read_event j k comp first.1 fresh first.0 line').0).items
            ≡ (get_windows c).items ++ niri_window j k w ∷ niri_window j k w' ∷ [])
          × ((niri_window j k w).id ≡ (niri_window j k w').id)
    read_event_twice heap c line line' w w' t t' same =
        let first = read_event j k comp heap fresh c line in
        let v = niri_window j k w in
        let v' = niri_window j k w' in
        (
          get_windows-items _
              ∙ ap (λ (c' : Cache D). c'.windows.items)
                  (read_event-Tells first.1 first.0 line' w' t')
              ∙ items-add_window first.0 v'
              ∙ ap (λ (c' : Cache D). c'.windows.items ++ v' ∷ [])
                  (read_event-Tells heap c line w t)
              ∙ ap (λ items. items ++ v' ∷ []) (items-add_window c v)
              ∙ append_assoc c.windows.items (v ∷ []) (v' ∷ [])
              ∙ ap (λ items. items ++ v ∷ v' ∷ []) (sym (get_windows-items c)),
          unfold niri_window in ap (λ i. some (show_int i)) same,
        )
