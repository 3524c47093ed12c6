-- ===== src/Config.antt =====
-- include/ipc/config_types.h: the universal configuration. A pointer that may be NULL is an `Option`, an
-- array with its count a list; `D` is C's `double`. Configurations are freed as a whole.
pub mod Parse
pub mod Notations
pub mod Handler
pub mod Sources
pub mod Outcome
mod Tests
use axctl_c.Prelude.{Bool, List, [], Option, none, CString, ℤ}

pub record Gaps : Type 0 where
  pub inner : Option ℤ
  pub outer : Option ℤ

pub record Border : Type 0 where
  pub width : Option ℤ
  pub active_color : Option CString
  pub inactive_color : Option CString
  pub rounding : Option ℤ

pub record Opacity (D : Type 0) : Type 0 where
  pub active : Option D
  pub inactive : Option D

pub record Blur : Type 0 where
  pub enabled : Option Bool
  pub size : Option ℤ
  pub passes : Option ℤ

pub record Shadow : Type 0 where
  pub enabled : Option Bool
  pub size : Option ℤ
  pub color : Option CString

pub record Animations : Type 0 where
  pub enabled : Option Bool

pub record Appearance (D : Type 0) : Type 0 where
  pub gaps : Option Gaps
  pub border : Option Border
  pub opacity : Option (Opacity D)
  pub blur : Option Blur
  pub shadow : Option Shadow
  pub animations : Option Animations
  pub layout : Option CString

pub record Keybind : Type 0 where
  pub modifiers : List (Option CString)
  pub key : Option CString
  pub dispatcher : Option CString
  pub argument : Option CString
  pub flags : Option CString
  pub enabled : Bool

pub record WindowRule : Type 0 where
  pub matches : Option CString
  pub rule : Option CString
  pub action : Option CString
  pub name : Option CString
  pub is_float : Option Bool
  pub no_blur : Option Bool
  pub no_shadow : Option Bool
  pub rounding : Option ℤ
  pub border_size : Option ℤ
  pub pin : Option Bool
  pub fullscreen : Option Bool
  pub idle_inhibit : Option Bool
  pub no_screen_share : Option Bool
  pub move : Option CString
  pub size : Option CString

pub record LayerRule (D : Type 0) : Type 0 where
  pub no_anim : Option Bool
  pub blur : Option Bool
  pub blur_popups : Option Bool
  pub ignore_alpha : Option Bool
  pub no_shadow : Option Bool
  pub ignore_zero_alpha : Option Bool
  pub ignore_alpha_value : Option D
  pub namespace_str : Option CString

pub record ConfigUniversal (D : Type 0) : Type 0 where
  pub appearance : Appearance D
  pub custom_keybinds : List Keybind
  pub ambxst_system_keybinds : List Keybind
  pub ambxst_binds : List Keybind
  pub window_rules : List WindowRule
  pub layer_rules : List (LayerRule D)
  pub exec : List (Option CString)
  pub exec_once : List (Option CString)

-- `memset(out, 0, sizeof(*out))`
abbrev pub no_appearance : {D : Type 0} → Appearance D
no_appearance = record {
  gaps = none;
  border = none;
  opacity = none;
  blur = none;
  shadow = none;
  animations = none;
  layout = none;
}

abbrev pub no_config : {D : Type 0} → ConfigUniversal D
no_config = record {
  appearance = no_appearance;
  custom_keybinds = [];
  ambxst_system_keybinds = [];
  ambxst_binds = [];
  window_rules = [];
  layer_rules = [];
  exec = [];
  exec_once = [];
}
