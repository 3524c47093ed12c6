-- ===== src/Hyprland/Sessions.antt =====
-- What the event lines of Hyprland leave in the cache of the server: src/ipc/hyprland/client.c and
-- src/server/server.c together.
use axctl_c.Prelude.{
  ◌≡◌, refl, ap, ◌∙◌, ℕ, Bool, true, false, List, [], ◌∷◌, ◌++◌, Option, none, some, CString, codes,
  str_eq, str_eq_iff, All,
}
use axctl_c.Json.{JsonC, JsonLaws}
use axctl_c.Strutil.{strstr, strncmp_eq}
use axctl_c.Strutil.Split.{join, IsFree, strsplit-join}
use axctl_c.Types.{Window, window_closed}
use axctl_c.Types.Arrays.{array_push-items}
use axctl_c.Cache.{Cache, Heap, has_id, remove_first, add_window, remove_window}
use axctl_c.Cache.Windows.{window_dup_lem}
use axctl_c.Server.Refresh.{Compositor}
use axctl_c.Server.Events.{
  event_callback, react, title_given, state_given, remove_given, add_given, payload_id, payload_get,
  payload_string,
}
use axctl_c.Hyprland.Events.{
  cut_newline, is_one, with_0x, pieces, created_window, parse_hypr_event_type, find_event,
  payload_of, window_of, event_of, read_event,
}

cut_newline-newline : (s : CString) → cut_newline (s ++ codes "\n") ≡ s
unfolding cut_newline
cut_newline-newline [] = refl
cut_newline-newline (c ∷ []) = refl
cut_newline-newline (c ∷ d ∷ s) = ap (λ r. c ∷ r) (cut_newline-newline (d ∷ s))

remove_first-last :
    (hit : Window → Bool) (ws : List Window) (w : Window)
    → All (λ v. hit v ≡ false) ws
    → hit w ≡ true
    → remove_first hit (ws ++ w ∷ []) ≡ ws
unfolding remove_first
remove_first-last hit [] w others own = rw (own) refl
remove_first-last hit (v ∷ ws) w others own =
    rw (others.0) (ap (λ r. v ∷ r) (remove_first-last hit ws w others.1 own))

-- The lines of the two events.
abbrev pub open_line : List CString → CString
open_line parts = codes "openwindow>>" ++ join b',' parts ++ codes "\n"

abbrev pub close_line : CString → CString
close_line addr = codes "closewindow>>" ++ addr ++ codes "\n"

-- A window as it is opened.
unfoldable pub opened_window : CString → CString → CString → CString → Window
opened_window addr ws class title = record {
  id = some (with_0x addr);
  title = some title;
  app_id = some class;
  workspace_id = some ws;
  is_focused = false;
  is_floating = false;
  is_fullscreen = false;
  is_hidden = false;
  metadata = none;
}

module _ (j : JsonC) (laws : JsonLaws j) {D : Type 0} (comp : Compositor D) (fresh : ℕ) where
  read_event-open :
      (heap : Heap j) (c : Cache D) (body : CString)
      → (read_event j comp heap fresh c (codes "openwindow>>" ++ body ++ codes "\n")).0
        ≡ add_window c (created_window (pieces body))
  unfolding read_event event_of strstr strncmp_eq parse_hypr_event_type find_event str_eq window_of
      event_callback react add_given
  read_event-open heap c body = rw (cut_newline-newline body) refl

  get_address :
      (v : j.Json)
      → j.object_get (j.object_add j.new_object (codes "address") v) (codes "address") ≡ some v
  unfolding str_eq
  get_address v = laws.get-add j.new_object v (codes "address") (codes "address")

  get_other :
      (v : j.Json) (key key' : CString)
      → str_eq key key' ≡ false
      → j.object_get (j.object_add j.new_object key v) key' ≡ none
  get_other v key key' other =
      laws.get-add j.new_object v key key' ∙ rw (other) (laws.get-new_object key')

  payload_id-closed :
      (name body : CString)
      → payload_id j (some (payload_of j window_closed name body)) ≡ some (with_0x body)
  unfolding payload_id payload_get payload_of str_eq
  payload_id-closed name body =
      let v : j.Json = j.new_string (with_0x body) in
      let found =
        laws.get-add (j.object_add j.new_object (codes "address") v) v (codes "id")
          (codes "address")
        ∙ get_address v in
      rw (found, payload_id) (laws.get_string-new_string (with_0x body))

  read_event-close :
      (heap : Heap j) (c : Cache D) (addr : CString)
      → (read_event j comp heap fresh c (close_line addr)).0 ≡ remove_window c (with_0x addr)
  unfolding read_event event_of strstr strncmp_eq parse_hypr_event_type find_event str_eq window_of
      event_callback react remove_given
  read_event-close heap c addr =
      rw (cut_newline-newline addr) rw (payload_id-closed (codes "closewindow") addr) refl

  items-add_created :
      (c : Cache D) (addr ws class title : CString) (more : List CString)
      → All (IsFree b',') (addr ∷ ws ∷ class ∷ title ∷ more)
      → (add_window c
          (created_window (pieces (join b',' (addr ∷ ws ∷ class ∷ title ∷ more))))).windows.items
        ≡ c.windows.items ++ opened_window addr ws class title ∷ []
  unfolding add_window created_window opened_window
  items-add_created c addr ws class title more free =
      array_push-items c.windows _
      ∙ ap (λ v. c.windows.items ++ v ∷ [])
          (window_dup_lem _
            ∙ ap created_window (strsplit-join b',' addr (ws ∷ class ∷ title ∷ more) free))

  remove_window-items :
      (c : Cache D) (id : CString)
      → (remove_window c id).windows.items ≡ remove_first (has_id id) c.windows.items
  unfolding remove_window
  remove_window-items c id = refl

  opened_window-has_id :
      (addr ws class title : CString)
      → has_id (with_0x addr) (opened_window addr ws class title) ≡ true
  unfolding has_id opened_window
  opened_window-has_id addr ws class title = (str_eq_iff (with_0x addr) (with_0x addr)).1 refl

  -- A line that says that a window was opened, with no comma in its parts, puts a window behind the
  -- cached ones, with the address behind `0x` as its id, the workspace, the class, and the title up to
  -- its first comma. If no cached window had this id, the line that says that it was closed leaves the
  -- windows that were cached before, in their order.
  pub read_event_open_close :
      (heap : Heap j) (c : Cache D) (addr ws class title : CString) (more : List CString)
      → All (IsFree b',') (addr ∷ ws ∷ class ∷ title ∷ more)
      → All (λ w. has_id (with_0x addr) w ≡ false) c.windows.items
      → let opened =
          read_event j comp heap fresh c (open_line (addr ∷ ws ∷ class ∷ title ∷ more)) in
        (opened.0.windows.items ≡ c.windows.items ++ opened_window addr ws class title ∷ [])
        × ((read_event j comp opened.1 fresh opened.0 (close_line addr)).0.windows.items
            ≡ c.windows.items)
  read_event_open_close heap c addr ws class title more free absent =
      let parts = addr ∷ ws ∷ class ∷ title ∷ more in
      let w = opened_window addr ws class title in
      let opened = read_event j comp heap fresh c (open_line parts) in
      let items : opened.0.windows.items ≡ c.windows.items ++ w ∷ [] =
        ap (λ (c' : Cache D). c'.windows.items) (read_event-open heap c (join b',' parts))
        ∙ items-add_created c addr ws class title more free in
      (
        items,
        ap (λ (c' : Cache D). c'.windows.items) (read_event-close opened.1 opened.0 addr)
            ∙ remove_window-items opened.0 (with_0x addr)
            ∙ ap (remove_first (has_id (with_0x addr))) items
            ∙ remove_first-last (has_id (with_0x addr)) c.windows.items w absent
                (opened_window-has_id addr ws class title),
      )

  title_given-none : (c : Cache D) (id : Option CString) → title_given c id none ≡ c
  unfolding title_given
  title_given-none c none = refl
  title_given-none c (some id) = refl

  title-address :
      (body : CString)
      → payload_string j
          (some (j.object_add j.new_object (codes "address") (j.new_string body)))
          (codes "title")
        ≡ none
  unfolding payload_string payload_get str_eq
  title-address body =
      rw (get_other (j.new_string body) (codes "address") (codes "title") refl, payload_string) refl

  payload_id-fullscreen :
      (v : j.Json) → payload_id j (some (j.object_add j.new_object (codes "fullscreen") v)) ≡ none
  unfolding payload_id payload_string payload_get str_eq
  payload_id-fullscreen v =
      rw
        (
          get_other v (codes "fullscreen") (codes "address") refl,
          get_other v (codes "fullscreen") (codes "id") refl,
          payload_id,
          payload_string,
        )
        refl

  -- A line of a title or of the full screen leaves the cache as it was: the one has no title, the other
  -- no window.
  pub read_event_silent :
      (heap : Heap j) (c : Cache D) (body : CString)
      → ((read_event j comp heap fresh c (codes "windowtitle>>" ++ body)).0 ≡ c)
        × ((read_event j comp heap fresh c (codes "windowtitlev2>>" ++ body)).0 ≡ c)
        × ((read_event j comp heap fresh c (codes "fullscreen>>" ++ body)).0 ≡ c)
  unfolding read_event event_of strstr strncmp_eq parse_hypr_event_type find_event str_eq window_of
      event_callback react title_given state_given payload_of
  read_event_silent heap c body =
      let title = title-address (cut_newline body) in
      let of_full = payload_id-fullscreen (j.new_boolean (is_one (cut_newline body))) in
      (rw (title) (title_given-none c _), rw (title) (title_given-none c _), rw (of_full) refl)
