-- ===== src/Config/Sources.antt =====
-- What of the payload of `Config.Apply` reaches the files: src/ipc/config_types.c and
-- src/server/config_handler.c together.
use axctl_c.Prelude.{
  ◌≡◌, refl, ap, inl, inr, Bool, false, not, ◌&&◌, List, [], ◌∷◌, ◌++◌, map, Option, none, some,
  CString, codes, Bool-cases, Option-cases, if◌then◌else◌,
}
use mathlib.Core.List.{map-append}
use axctl_c.Json.{JsonC, JsonKinds}
use axctl_c.Json.Helpers.{json_get_object, json_get_array}
use axctl_c.Config.{ConfigUniversal}
use axctl_c.Config.Parse.{
  parse_keybind, parse_map, is_object, is_system, system_keybinds, entries_or_none, parse_keybinds,
  from_root,
}
use axctl_c.Config.Handler.{Generators, merged_binds, section, file_text}

map-append-append :
    {A B : Type 0} (f : A → B) (xs ys zs : List A) {us vs ws : List B}
    → us ≡ map f xs
    → vs ≡ map f ys
    → ws ≡ map f zs
    → us ++ vs ++ ws ≡ map f (xs ++ ys ++ zs)
map-append-append f xs ys zs p q r = rw (p, q, r) (simp map-append)

module _ (j : JsonC) {D : Type 0} (k : JsonKinds j D) where
  -- The values that are objects, but for the keys that are passed over.
  objects : (CString → Bool) → List (CString × j.Json) → List j.Json
  objects skipped [] = []
  objects skipped ((key, v) ∷ es) =
      let rest = objects skipped es in
      if not (skipped key) && is_object j k v then v ∷ rest else rest

  parse_map-objects :
      (skipped : CString → Bool) (es : List (CString × j.Json))
      → parse_map j k skipped es ≡ map (parse_keybind j k) (objects skipped es)
  unfolding parse_map objects
  parse_map-objects skipped [] = refl
  parse_map-objects skipped ((key, v) ∷ es) =
      elim (Bool-cases (not (skipped key) && is_object j k v)) [
        | inl y ↦
            rw (y, parse_map, objects)
              (ap (λ binds. parse_keybind j k v ∷ binds) (parse_map-objects skipped es))
        | inr n ↦ rw (n, parse_map, objects) (parse_map-objects skipped es)
      ]

  -- The object under a key, as its entries.
  entries_at : Option j.Json → CString → List (CString × j.Json)
  entries_at none key = []
  entries_at (some o) key = elim (json_get_object j k o key) [
    | none ↦ []
    | some v ↦ entries_or_none j k v
  ]

  items_at : Option j.Json → CString → List j.Json
  items_at none key = []
  items_at (some o) key = elim (json_get_array j o key) [
    | none ↦ []
    | some a ↦ elim (j.array_items a) [ none ↦ [] | some items ↦ items ]
  ]

  object_at : Option j.Json → CString → Option j.Json
  object_at none key = none
  object_at (some o) key = json_get_object j k o key

  -- The forms of the bindings in the payload: the objects in `keybinds.ambxst.system`, then the other
  -- objects in `keybinds.ambxst`, then the items of `keybinds.custom`.
  pub bind_forms : j.Json → List j.Json
  unfolding objects entries_at items_at object_at
  bind_forms root =
      let keybinds = object_at (some root) (codes "keybinds") in
      objects (λ key. false) (entries_at (object_at keybinds (codes "ambxst")) (codes "system"))
      ++ objects is_system (elim (object_at keybinds (codes "ambxst")) [
        | none ↦ []
        | some o ↦ entries_or_none j k o
      ])
      ++ items_at keybinds (codes "custom")

  system_keybinds-objects :
      (o : j.Json)
      → system_keybinds j k o
        ≡ map (parse_keybind j k) (objects (λ key. false) (entries_at (some o) (codes "system")))
  unfolding system_keybinds entries_at
  system_keybinds-objects o = elim (Option-cases (json_get_object j k o (codes "system"))) [
    | inl e ↦ rw (e, system_keybinds, entries_at) (unfold objects in refl)
    | inr (v, e) ↦ rw (e, system_keybinds, entries_at) (parse_map-objects _ _)
  ]

  custom-items :
      (kb : j.Json)
      → (elim (json_get_array j kb (codes "custom")) [
        | none ↦ []
        | some a ↦ elim (j.array_items a) [ none ↦ [] | some items ↦ map (parse_keybind j k) items ]
      ])
        ≡ map (parse_keybind j k) (items_at (some kb) (codes "custom"))
  unfolding items_at
  custom-items kb = elim (Option-cases (json_get_array j kb (codes "custom"))) [
    | inl e ↦ rw (e, items_at) refl
    | inr (a, e) ↦ elim (Option-cases (j.array_items a)) [
      | inl f ↦ rw (e, items_at) rw (f) refl
      | inr (items, f) ↦ rw (e, items_at) rw (f) refl
    ]
  ]

  named-objects :
      (ambxst : Option j.Json)
      → (elim ambxst [ none ↦ [] | some o ↦ parse_map j k is_system (entries_or_none j k o) ])
        ≡ map
            (parse_keybind j k)
            (objects is_system (elim ambxst [ none ↦ [] | some o ↦ entries_or_none j k o ]))
  named-objects none = unfold objects in refl
  named-objects (some o) = parse_map-objects is_system (entries_or_none j k o)

  system-objects :
      (ambxst : Option j.Json)
      → (elim ambxst [ none ↦ [] | some o ↦ system_keybinds j k o ])
        ≡ map (parse_keybind j k) (objects (λ key. false) (entries_at ambxst (codes "system")))
  system-objects none = unfold objects entries_at in refl
  system-objects (some o) = system_keybinds-objects o

  merged_binds-forms :
      (root : j.Json)
      → merged_binds (from_root j k root) ≡ map (parse_keybind j k) (bind_forms root)
  unfolding merged_binds from_root bind_forms parse_keybinds object_at items_at entries_at
  merged_binds-forms root = elim (Option-cases (json_get_object j k root (codes "keybinds"))) [
    | inl e ↦ rw (e, from_root, bind_forms) (unfold objects in refl)
    | inr (kb, e) ↦
        rw (e, from_root, bind_forms)
          (map-append-append (parse_keybind j k) _ _ _
            (system-objects (json_get_object j k kb (codes "ambxst")))
            (named-objects (json_get_object j k kb (codes "ambxst"))) (custom-items kb))
  ]

  -- What no payload says: the rules of windows and layers, and the commands.
  abbrev Bare : ConfigUniversal D → Type 0
  Bare cfg =
      (cfg.window_rules ≡ []) × (cfg.layer_rules ≡ []) × (cfg.exec ≡ []) × (cfg.exec_once ≡ [])

  from_root-Bare : (root : j.Json) → Bare (from_root j k root)
  unfolding from_root parse_keybinds
  from_root-Bare root = elim (Option-cases (json_get_object j k root (codes "keybinds"))) [
    | inl e ↦ rw (e, from_root) (refl, refl, refl, refl)
    | inr (kb, e) ↦ rw (e, from_root) (refl, refl, refl, refl)
  ]

  -- The file that is made of a payload has, behind its header, the startup section of no commands,
  -- the appearance, the bindings of the payload in the order of the sources, whatever generators are
  -- taken, and the sections of no window rules and no layer rules, whatever else the payload holds.
  pub file_text-from_root :
      (header : CString) (gen : Generators D) (root : j.Json)
      → file_text header gen (from_root j k root)
        ≡ header
          ++ section (gen.startup [] [])
          ++ section (gen.appearance (from_root j k root).appearance)
          ++ section (gen.keybinds (map (parse_keybind j k) (bind_forms root)))
          ++ section (gen.window_rules [])
          ++ section (gen.layer_rules [])
  unfolding file_text
  file_text-from_root header gen root =
      let bare = from_root-Bare root in
      rw (merged_binds-forms root, bare.0, bare.1, bare.2, bare.3) refl
