-- ===== src/Cache/Focus.antt =====
-- Windows with distinct ids, and the focused one among them.
use axctl_c.Prelude.{
  ℕ, ◌+◌, ◌≤◌, ◌≡◌, refl, ◌∙◌, inl, inr, Bool, true, false, List, [], ◌∷◌, ◌++◌, map, Option, none,
  some, arith, CString, All, if◌then◌else◌, str_eq_iff, Bool-cases, Option-cases,
}
use axctl_c.Types.{Window}
use axctl_c.Cache.{Cache, has_id, focus_by, mark_window_focused, add_window, get_windows}
use axctl_c.Cache.Windows.{get_windows-add_window}

-- Both have an id, and the same.
unfoldable pub same_id : Window → Window → Bool
same_id w v = elim w.id [ none ↦ false | some own ↦ has_id own v ]

-- No two windows have the same id.
abbrev pub Distinct : List Window → Type 0
Distinct [] = Unit {0}
Distinct (w ∷ ws) = All (λ v. same_id w v ≡ false) ws × Distinct ws

-- How many windows are focused, and how many have an id.
abbrev pub count : (Window → Bool) → List Window → ℕ
count p [] = 0
count p (w ∷ ws) = (if p w then 1 else 0) + count p ws

count-focus_by :
    (id : CString) (ws : List Window)
    → count (λ w. w.is_focused) (map (focus_by (some id)) ws) ≡ count (has_id id) ws
unfolding focus_by
count-focus_by id [] = refl
count-focus_by id (w ∷ ws) = ground (arith, count-focus_by id ws)

-- Windows that differ from one with this id do not have it.
other_id :
    (id : CString) (w v : Window) → has_id id w ≡ true → same_id w v ≡ false → has_id id v ≡ false
unfolding has_id same_id
other_id id w v h d = elim (Option-cases w.id) [
  | inl nameless ↦ let f : false ≡ true = rw (nameless, has_id) at h in cc
  | inr (a, ew) ↦ elim (Option-cases v.id) [
    | inl nameless ↦ rw (nameless, has_id)
    | inr (b, ev) ↦ ground (arith, ew, ev, str_eq_iff a id, str_eq_iff b id, str_eq_iff b a)
  ]
]

count_others :
    (id : CString) (w : Window) (ws : List Window)
    → has_id id w ≡ true
    → All (λ v. same_id w v ≡ false) ws
    → count (has_id id) ws ≡ 0
count_others id w [] h d = refl
count_others id w (v ∷ ws) h d = ground (arith, other_id id w v h d.0, count_others id w ws h d.1)

count_at_most_one : (id : CString) (ws : List Window) → Distinct ws → count (has_id id) ws ≤ 1
count_at_most_one id [] d = omega arith
count_at_most_one id (w ∷ ws) d = elim (Bool-cases (has_id id w)) [
  | inl hit ↦ ground (arith, count_others id w ws hit d.0)
  | inr miss ↦ ground (arith, count_at_most_one id ws d.1)
]

-- Focusing changes no id.
focus_by-same_id :
    (id : Option CString) (w v : Window) → same_id (focus_by id w) (focus_by id v) ≡ same_id w v
unfolding focus_by same_id has_id
focus_by-same_id id w v = refl

focus_by-All :
    (id : Option CString) (w : Window) (ws : List Window)
    → All (λ v. same_id w v ≡ false) ws
    → All (λ v. same_id (focus_by id w) v ≡ false) (map (focus_by id) ws)
focus_by-All id w [] d = tt
focus_by-All id w (v ∷ ws) d = (focus_by-same_id id w v ∙ d.0, focus_by-All id w ws d.1)

pub focus_by-Distinct :
    (id : Option CString) (ws : List Window) → Distinct ws → Distinct (map (focus_by id) ws)
focus_by-Distinct id [] d = tt
focus_by-Distinct id (w ∷ ws) d = (focus_by-All id w ws d.0, focus_by-Distinct id ws d.1)

module _ {D : Type 0} where
  -- Where the ids of the cached windows are distinct, after a window is marked as focused they still
  -- are, exactly as many windows are focused as have its id, and that is at most one.
  pub mark_window_focused-Distinct :
      (c : Cache D) (id : CString)
      → Distinct c.windows.items
      → let ws = (mark_window_focused c (some id)).windows.items in
        Distinct ws
        × (count (λ w. w.is_focused) ws ≡ count (has_id id) c.windows.items)
        × (count (λ w. w.is_focused) ws ≤ 1)
  unfolding mark_window_focused
  mark_window_focused-Distinct c id d =
      let same = count-focus_by id c.windows.items in
      (
        focus_by-Distinct (some id) c.windows.items d,
        same,
        omega (arith, same, count_at_most_one id c.windows.items d),
      )

same_id_all :
    (pre post : List Window) (v w : Window)
    → same_id v w ≡ true
    → ¬ Distinct ((pre ++ (v ∷ post)) ++ w ∷ [])
same_id_all [] [] v w e d = let f : false ≡ true = ground arith in cc
same_id_all [] (u ∷ post) v w e d = same_id_all [] post v w e (drop_second d)
  where
    drop_second : Distinct ((v ∷ u ∷ post) ++ w ∷ []) → Distinct ((v ∷ post) ++ w ∷ [])
    drop_second d = (d.0.1, d.1.1)
same_id_all (u ∷ pre) post v w e d = same_id_all pre post v w e d.1

module _ {D : Type 0} where
  -- Adding a window whose id a cached window has leaves two windows with the same id, and the getter
  -- answers both.
  pub add_window_twice :
      (c : Cache D) (w v : Window) (pre post : List Window)
      → c.windows.items ≡ pre ++ (v ∷ post)
      → same_id v w ≡ true
      → ¬ Distinct (get_windows (add_window c w)).items
  add_window_twice c w v pre post s e =
      let shown = get_windows-add_window c w in
      let all_of : (get_windows (add_window c w)).items ≡ (pre ++ (v ∷ post)) ++ w ∷ [] =
        cc (shown.0, shown.1, s) in
      rw all_of (same_id_all pre post v w e)
