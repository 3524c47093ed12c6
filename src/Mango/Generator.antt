-- ===== src/Mango/Generator.antt =====
-- src/ipc/mango/generator.c: the texts for Mango, all of them empty.
use axctl_c.Prelude.{List, [], Option, CString}
use axctl_c.Config.{Appearance, Keybind, WindowRule, LayerRule}

unfoldable pub mango_generate_appearance : {D : Type 0} → Appearance D → CString
mango_generate_appearance cfg = []

unfoldable pub mango_generate_keybinds : List Keybind → CString
mango_generate_keybinds binds = []

unfoldable pub mango_generate_window_rules : List WindowRule → CString
mango_generate_window_rules rules = []

unfoldable pub mango_generate_layer_rules : {D : Type 0} → List (LayerRule D) → CString
mango_generate_layer_rules rules = []

unfoldable pub mango_generate_startup : List (Option CString) → List (Option CString) → CString
mango_generate_startup exec exec_once = []
