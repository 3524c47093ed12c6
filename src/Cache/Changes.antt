-- ===== src/Cache/Changes.antt =====
-- Changes of a list of windows whose ids are distinct.
use axctl_c.Prelude.{◌≡◌, ◌∙◌, Bool, true, false, List, [], ◌∷◌, ◌++◌, All, if◌then◌else◌}
use axctl_c.Table.{update_first}
use axctl_c.Types.{Window}
use axctl_c.Cache.{has_id, remove_first}
use axctl_c.Cache.Focus.{same_id, Distinct}

-- The window has no id, or one that none of the windows has.
abbrev pub IsNew : Window → List Window → Type 0
IsNew w = All (λ v. same_id v w ≡ false)

-- A change of a window that leaves its id.
unfoldable pub KeepsId : (Window → Window) → Type 0
KeepsId f = (w : Window) → (f w).id ≡ w.id

pub same_id-keeps :
    (f : Window → Window) (w v : Window)
    → KeepsId f
    → (same_id (f w) v ≡ same_id w v) × (same_id w (f v) ≡ same_id w v)
unfolding same_id has_id KeepsId
same_id-keeps f w v k = (rw (k w), rw (k v))

pub append-Distinct :
    (ws : List Window) (w : Window) → Distinct ws → IsNew w ws → Distinct (ws ++ w ∷ [])
append-Distinct [] w d n = (tt, tt)
append-Distinct (v ∷ ws) w d n = (append_one v ws w d.0 n.0, append-Distinct ws w d.1 n.1)
  where
    append_one :
        (v : Window) (ws : List Window) (w : Window)
        → All (λ u. same_id v u ≡ false) ws
        → same_id v w ≡ false
        → All (λ u. same_id v u ≡ false) (ws ++ w ∷ [])
    append_one v [] w a e = (e, tt)
    append_one v (u ∷ ws) w a e = (a.0, append_one v ws w a.1 e)

remove_first-All :
    (P : Window → Type 0) (hit : Window → Bool) (ws : List Window)
    → All P ws
    → All P (remove_first hit ws)
unfolding remove_first
remove_first-All P hit [] a = tt
remove_first-All P hit (w ∷ ws) a =
    elim (hit w) as (λ b. All P (if b then ws else w ∷ remove_first hit ws)) [
      | true ↦ a.1
      | false ↦ (a.0, remove_first-All P hit ws a.1)
    ]

pub remove_first-Distinct :
    (hit : Window → Bool) (ws : List Window) → Distinct ws → Distinct (remove_first hit ws)
unfolding remove_first
remove_first-Distinct hit [] d = tt
remove_first-Distinct hit (w ∷ ws) d =
    elim (hit w) as (λ b. Distinct (if b then ws else w ∷ remove_first hit ws)) [
      | true ↦ d.1
      | false ↦
          (remove_first-All (λ v. same_id w v ≡ false) hit ws d.0, remove_first-Distinct hit ws d.1)
    ]

update_first-All :
    (hit : Window → Bool) (f : Window → Window) (w : Window) (ws : List Window)
    → KeepsId f
    → All (λ v. same_id w v ≡ false) ws
    → All (λ v. same_id w v ≡ false) (update_first hit f ws)
unfolding update_first
update_first-All hit f w [] k a = tt
update_first-All hit f w (v ∷ ws) k a =
    elim (hit v)
      as (λ b. All (λ v. same_id w v ≡ false) (if b then f v ∷ ws else v ∷ update_first hit f ws)) [
        | true ↦ ((same_id-keeps f w v k).1 ∙ a.0, a.1)
        | false ↦ (a.0, update_first-All hit f w ws k a.1)
      ]

pub same_id_left :
    (f : Window → Window) (w : Window) (ws : List Window)
    → KeepsId f
    → All (λ v. same_id w v ≡ false) ws
    → All (λ v. same_id (f w) v ≡ false) ws
same_id_left f w [] k a = tt
same_id_left f w (v ∷ ws) k a = ((same_id-keeps f w v k).0 ∙ a.0, same_id_left f w ws k a.1)

pub update_first-Distinct :
    (hit : Window → Bool) (f : Window → Window) (ws : List Window)
    → KeepsId f
    → Distinct ws
    → Distinct (update_first hit f ws)
unfolding update_first
update_first-Distinct hit f [] k d = tt
update_first-Distinct hit f (w ∷ ws) k d =
    elim (hit w) as (λ b. Distinct (if b then f w ∷ ws else w ∷ update_first hit f ws)) [
      | true ↦ (same_id_left f w ws k d.0, d.1)
      | false ↦ (update_first-All hit f w ws k d.0, update_first-Distinct hit f ws k d.1)
    ]
