-- ===== src/Cache/Windows.antt =====
-- The window operations, as the getter shows them.
use axctl_c.Prelude.{
  ◌≡◌, refl, ap, ◌∙◌, Bool, true, false, List, [], ◌∷◌, ◌++◌, map, Option, none, some, arith,
  CString, All,
}
use axctl_c.Table.{update_first}
use axctl_c.Strutil.{strdup}
use axctl_c.Types.{Window, window_dup}
use axctl_c.Types.Arrays.{array_dup-items, array_push-items}
use axctl_c.Cache.{
  Cache, has_id, remove_first, set_title, set_fullscreen, set_floating, add_window, remove_window,
  update_window_title, update_window_state, update_window_floating, get_windows,
}

pub strdup_lem : (s : Option CString) → strdup s ≡ s
unfolding strdup
strdup_lem none = refl
strdup_lem (some s) = refl

-- A copied window is equal to the window, metadata handle included.
pub window_dup_lem : (w : Window) → window_dup w ≡ w
unfolding window_dup
window_dup_lem w =
    ground
      (arith, strdup_lem w.id, strdup_lem w.title, strdup_lem w.app_id, strdup_lem w.workspace_id)

pub map-window_dup : (ws : List Window) → map window_dup ws ≡ ws
map-window_dup [] = refl
map-window_dup (w ∷ ws) = rw (window_dup_lem w, map-window_dup ws)

-- The window `w` is the first of the list with this id.
pub record FirstWith (id : CString) (ws pre : List Window) (w : Window) (post : List Window)
    : Type 0 where
  pub splits : ws ≡ pre ++ (w ∷ post)
  pub before : All (λ v. has_id id v ≡ false) pre
  pub hit : has_id id w ≡ true

update_first-append :
    (id : CString) (f : Window → Window) (pre : List Window) (w : Window) (post : List Window)
    → All (λ v. has_id id v ≡ false) pre
    → has_id id w ≡ true
    → (update_first (has_id id) f (pre ++ (w ∷ post)) ≡ pre ++ (f w ∷ post))
      × (remove_first (has_id id) (pre ++ (w ∷ post)) ≡ pre ++ post)
unfolding update_first remove_first
update_first-append id f [] w post b h = (ground arith, ground arith)
update_first-append id f (v ∷ pre) w post b h =
    let ih = update_first-append id f pre w post b.1 h in (ground (arith, ih), ground (arith, ih))

update_first_absent :
    (id : CString) (f : Window → Window) (ws : List Window)
    → All (λ v. has_id id v ≡ false) ws
    → (update_first (has_id id) f ws ≡ ws) × (remove_first (has_id id) ws ≡ ws)
unfolding update_first remove_first
update_first_absent id f [] b = (refl, refl)
update_first_absent id f (v ∷ ws) b =
    let ih = update_first_absent id f ws b.1 in (ground (arith, ih), ground (arith, ih))

module _ {D : Type 0} where
  pub get_windows-items : (c : Cache D) → (get_windows c).items ≡ c.windows.items
  unfolding get_windows
  get_windows-items c = array_dup-items window_dup c.windows ∙ map-window_dup c.windows.items

  -- The getter answers the cached windows, and one that is added stands behind them.
  pub get_windows-add_window :
      (c : Cache D) (w : Window)
      → ((get_windows c).items ≡ c.windows.items)
        × ((get_windows (add_window c w)).items ≡ (get_windows c).items ++ w ∷ [])
  unfolding add_window
  get_windows-add_window c w = (
    get_windows-items c,
    get_windows-items (add_window c w)
        ∙ array_push-items c.windows (window_dup w)
        ∙ ground (arith, window_dup_lem w, get_windows-items c),
  )

  -- Removing a window, and setting its title or one of its flags, acts on the first window with the
  -- id, and on no other; the others keep their order.
  pub window_operations :
      (c : Cache D) (id : CString) (title : Option CString) (on : Bool) {pre post : List Window}
      {w : Window}
      → FirstWith id c.windows.items pre w post
      → ((get_windows (remove_window c id)).items ≡ pre ++ post)
        × ((get_windows (update_window_title c id title)).items
            ≡ pre ++ (record w { title = title } ∷ post))
        × ((get_windows (update_window_state c id on)).items
            ≡ pre ++ (record w { is_fullscreen = on } ∷ post))
        × ((get_windows (update_window_floating c id on)).items
            ≡ pre ++ (record w { is_floating = on } ∷ post))
  unfolding remove_window update_window_title update_window_state update_window_floating
  window_operations c id title on {pre} {post} {w} f =
      let changed = λ (g : Window → Window).
        ap (update_first (has_id id) g) f.splits
        ∙ (update_first-append id g pre w post f.before f.hit).0 in
      (
        get_windows-items (remove_window c id)
            ∙ ap (remove_first (has_id id)) f.splits
            ∙ (update_first-append id (set_title title) pre w post f.before f.hit).1,
        get_windows-items (update_window_title c id title)
            ∙ changed (set_title title)
            ∙ rw (strdup_lem title),
        get_windows-items (update_window_state c id on) ∙ changed (set_fullscreen on),
        get_windows-items (update_window_floating c id on) ∙ changed (set_floating on),
      )

  -- For an id that no cached window has, removing the window and setting its title or one of its
  -- flags change nothing.
  pub window_operations_absent :
      (c : Cache D) (id : CString) (title : Option CString) (on : Bool)
      → All (λ v. has_id id v ≡ false) c.windows.items
      → (remove_window c id ≡ c)
        × (update_window_title c id title ≡ c)
        × (update_window_state c id on ≡ c)
        × (update_window_floating c id on ≡ c)
  unfolding remove_window update_window_title update_window_state update_window_floating
  window_operations_absent c id title on b =
      let none_hit = λ (g : Window → Window). update_first_absent id g c.windows.items b in
      (
        rw ((none_hit (set_title title)).1),
        rw ((none_hit (set_title title)).0),
        rw ((none_hit (set_fullscreen on)).0),
        rw ((none_hit (set_floating on)).0),
      )
