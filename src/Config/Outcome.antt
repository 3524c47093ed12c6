-- ===== src/Config/Outcome.antt =====
-- How src/server/config_handler.c ends: with the files written and the compositor told, or with an error.
use axctl_c.Prelude.{
  ◌≡◌, ℕ, true, false, List, [], ◌∷◌, ◌++◌, Option, none, some, CString, codes, if◌then◌else◌,
}
use axctl_c.Config.{ConfigUniversal}
use axctl_c.Config.Handler.{
  GeneratorSet, generators_for, file_text, without_extension, config_default_output_path, Action,
  write, reload, Applied, Target,
}

-- The path that is given, or the default one.
abbrev pub path_for : Target → Option CString → CString
path_for t output_path = elim output_path [
  | none ↦ config_default_output_path t.home
  | some path ↦ path
]

-- The generators for the compositor's name, if there is a name.
abbrev pub set_for : {D : Type 0} → (D → CString) → Option CString → Option (GeneratorSet D)
set_for show_double comp_name =
    generators_for show_double (elim comp_name [ none ↦ [] | some name ↦ name ])

module _ {D : Type 0} (show_double : D → CString) (t : Target) (cfg : ConfigUniversal D) where
  -- The file beside: for a compositor with a second syntax, if it can be opened.
  unfoldable pub beside : GeneratorSet D → CString → List Action
  beside gen path = elim gen.lua [
    | none ↦ []
    | some lua ↦
        let lua_path = without_extension path ++ codes ".lua" in
        if t.opens lua_path
        then write lua_path
            (file_text (codes "-- Generated by axctl - do not edit manually\n\n") lua cfg)
          ∷ []
        else []
  ]

  -- The file at the path is written in the compositor's own syntax, then the one beside it; last the
  -- compositor is told, if it can be, and its answer is the result.
  pub IsApplied : GeneratorSet D → CString → Applied → Type 0
  IsApplied gen path r =
      (r.actions
        ≡ write path
              (file_text (codes "# Generated by axctl - do not edit manually\n\n") gen.own cfg)
            ∷ beside gen path
          ++ (elim t.reload_config [ none ↦ [] | some answer ↦ reload ∷ [] ]))
      × (r.ok ≡ (elim t.reload_config [ none ↦ true | some answer ↦ answer ]))

  -- Nothing is done, and there is a message.
  pub IsRefused : Applied → Type 0
  IsRefused r =
      (c : ℕ) × (message : CString) × (r.actions ≡ []) × (r.ok ≡ false) × (r.error ≡ c ∷ message)
