-- ===== src/Cache/Sharing.antt =====
-- The metadata objects that a copy shares with the cache.
use axctl_c.Prelude.{
  ℕ, ◌≡◌, ◌≢◌, refl, ◌∙◌, true, false, ◌∷◌, Option, some, arith, ◌==◌, ap, CString, codes,
  str_eq_iff,
}
use axctl_c.Table.{find_first}
use axctl_c.Json.{JsonC, JsonLaws}
use axctl_c.Types.{Window}
use axctl_c.Cache.{Cache, has_id, Heap, write, add_monitor_id, update_window_workspace, get_windows}
use axctl_c.Cache.Windows.{get_windows-add_window}

write_self {ℓ} : {A : Type ℓ} (heap : ℕ → A) (h : ℕ) (v : A) → write heap h v h ≡ v
unfolding write
write_self heap h v = let e : (h == h) ≡ true = ground arith in rw e

write_other {ℓ} : {A : Type ℓ} (heap : ℕ → A) (h k : ℕ) (v : A) → k ≢ h → write heap h v k ≡ heap k
unfolding write
write_other heap h k v ne = let e : (h == k) ≡ false = ground arith in rw e

module _ (j : JsonC) (laws : JsonLaws j) where
  add_monitor_id_shared :
      (heap : Heap j) (fresh h : ℕ) (mon : CString)
      → let heap' = add_monitor_id j heap fresh (some h) mon in
        (j.object_get (heap' h) (codes "monitor_id") ≡ some (j.new_string mon))
        × ((k : ℕ) → k ≢ h → heap' k ≡ heap k)
  unfolding add_monitor_id
  add_monitor_id_shared heap fresh h mon =
      let v = j.object_add (heap h) (codes "monitor_id") (j.new_string mon) in
      let same = (str_eq_iff (codes "monitor_id") (codes "monitor_id")).1 refl in
      (
        rw (write_self heap h v) (
            laws.get-add (heap h) (j.new_string mon) (codes "monitor_id") (codes "monitor_id")
            ∙ rw same),
        λ k ne. write_other heap h k v ne,
      )

  -- A copy of the windows that was answered before a window moved to another monitor shares that
  -- window's metadata object: if the window has one, the copy shows the new monitor afterwards. The
  -- objects at all other handles stay as they were.
  pub get_windows-update_window_workspace :
      {D : Type 0} (heap : Heap j) (fresh : ℕ) (c : Cache D) (id : CString)
      (workspace_id : Option CString) (b : ℕ) (s : CString) {w : Window} {h : ℕ}
      → find_first (has_id id) c.windows.items ≡ some w
      → w.metadata ≡ some h
      → let heap' = (update_window_workspace j heap fresh c id workspace_id (some (b ∷ s))).1 in
        (find_first (has_id id) (get_windows c).items ≡ some w)
        × (j.object_get (heap' h) (codes "monitor_id") ≡ some (j.new_string (b ∷ s)))
        × ((k : ℕ) → k ≢ h → heap' k ≡ heap k)
  unfolding update_window_workspace
  get_windows-update_window_workspace heap fresh c id workspace_id b s {w} {h} found meta =
      let shown = (get_windows-add_window c w).0 in
      let facts = add_monitor_id_shared heap fresh h (b ∷ s) in
      (
        ap (find_first (has_id id)) shown ∙ found,
        rw (found, update_window_workspace, meta) (facts.0),
        rw (found, update_window_workspace, meta) (facts.1),
      )
