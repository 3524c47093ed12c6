-- ===== src/Cli/Commands/States.antt =====
-- The commands on a window with a state, a property or a place.
use axctl_c.Prelude.{
  ℕ, ◌≡◌, refl, ap, ◌∙◌, Bool, true, false, ℤ, ◌∷◌, Option, some, CString, codes, str_eq, pos,
  get_elem?,
}
use axctl_c.Json.{JsonC, JsonLaws}
use axctl_c.Json.Helpers.{param_str, param_int, param_bool}
use axctl_c.Types.ToJson.{Doubles}
use axctl_c.Server.Methods.{
  WindowMethod, window, method_of, window_resize, window_fullscreen, window_maximize, window_pin,
  window_layout_prop, window_move_pixel,
}
use axctl_c.Server.Backend.{
  Call, resize_window, set_fullscreen, set_maximized, pin_window, set_layout_property,
  move_window_pixel, Backend, Host, Server,
}
use axctl_c.Server.Dispatch.{on_window, window_method}
use axctl_c.Server.Dispatch.Answer.{handle_request, run_method}
use axctl_c.Cli.{method_for}
use axctl_c.Cli.Params.{atoi, add_text, add_flag, add_number, add_two, method_params, window_params}
use axctl_c.Cli.Commands.Reads.{
  arg_optional, read_text, read_number, read_flag, first_of, second_of, triple, get_first,
  get_second, get_third,
}
use axctl_c.Cli.Commands.{
  fullscreen, maximize, pin, resize, layout_prop, move_pixel, optional, words, meant, on, is_on,
  request_of, calls_of,
}
use axctl_c.Cli.Commands.Asked.{on_named, DoneBy}

module _ (j : JsonC) (laws : JsonLaws j) {D : Type 0} (d : Doubles j D) (b : Backend j) (h : Host j)
    (fd : ℕ) (s : Server j D) (parse : CString → Option j.Json) where
  -- A state, and behind it the window's id.
  abbrev with_state : CString → Option CString → j.Json
  with_state state id =
      add_text j (j.object_add j.new_object (codes "state") (j.new_boolean (is_on j state)))
        (codes "id") (get_elem? (optional id) 0)

  state-done :
      (action state : CString) (id : Option CString) (m : WindowMethod)
      (call : CString → Bool → Call j)
      → method_of (method_for (codes "window") action) ≡ some (window m)
      → run_method j d b h fd s
          (some (method_params j parse (state ∷ optional id) (window m)))
          (window m)
        ≡ some (
            on_window j b s
              (some (with_state state id))
              (codes "id")
              (λ w. call w (param_bool j (some (with_state state id)) (codes "state") false)))
      → calls_of j (
          handle_request j d b fd h s
            (request_of j parse (codes "window") action (state ∷ optional id)))
        ≡ some (on j b id (λ w. call w (is_on j state)))
  unfolding str_eq
  state-done action state id m call found ran =
      let v = j.new_boolean (is_on j state) in
      let rest = get_elem? (optional id) 0 in
      let e : param_bool j (some (with_state state id)) (codes "state") false ≡ is_on j state =
        read_flag j laws (with_state state id) (codes "state") (is_on j state) false
          (first_of j laws v (codes "state") (codes "id") rest refl refl refl refl) in
      on_named j laws d b h fd s parse (codes "window") action (state ∷ optional id) (window m)
        (with_state state id) (codes "id") id _ found ran
        (second_of j laws v (codes "state") (codes "id") rest refl refl refl refl ∙ arg_optional id)
      ∙ ap (λ x. some (on j b id (λ w. call w x))) e

  pub fullscreen-done :
      (state : CString) (id : Option CString) → DoneBy j laws d b h fd s parse (fullscreen state id)
  unfolding DoneBy words meant method_of method_for run_method window_method window_params str_eq
      method_params add_text add_flag
  fullscreen-done state id =
      state-done (codes "fullscreen") state id window_fullscreen (λ w x. set_fullscreen w x) refl
        refl

  pub maximize-done :
      (state : CString) (id : Option CString) → DoneBy j laws d b h fd s parse (maximize state id)
  unfolding DoneBy words meant method_of method_for run_method window_method window_params str_eq
      method_params add_text add_flag
  maximize-done state id =
      state-done (codes "maximize") state id window_maximize (λ w x. set_maximized w x) refl refl

  pub pin-done :
      (state : CString) (id : Option CString) → DoneBy j laws d b h fd s parse (pin state id)
  unfolding DoneBy words meant method_of method_for run_method window_method window_params str_eq
      method_params add_text add_flag
  pin-done state id = state-done (codes "pin") state id window_pin (λ w x. pin_window w x) refl refl

  pub layout_prop-done :
      (key value : CString) (id : Option CString)
      → DoneBy j laws d b h fd s parse (layout_prop key value id)
  unfolding DoneBy words meant method_of method_for run_method window_method window_params str_eq
      method_params add_text add_two
  layout_prop-done key value id =
      let rest = get_elem? (optional id) 0 in
      let k = j.new_string key in
      let v = j.new_string value in
      let o =
        triple j laws k v (codes "key") (codes "value") (codes "id") rest refl refl refl refl refl
          refl refl refl in
      let e = read_text j laws o (codes "key") key (
        get_first j laws k v (codes "key") (codes "value") (codes "id") rest refl refl refl refl
          refl refl refl refl) in
      let e' = read_text j laws o (codes "value") value (
        get_second j laws k v (codes "key") (codes "value") (codes "id") rest refl refl refl refl
          refl refl refl refl) in
      on_named j laws d b h fd s parse (codes "window") (codes "layout-prop")
        (key ∷ value ∷ optional id) (window window_layout_prop) o (codes "id") id
        (λ w.
          set_layout_property w (param_str j (some o) (codes "key"))
            (param_str j (some o) (codes "value")))
        refl refl
        (get_third j laws k v (codes "key") (codes "value") (codes "id") rest refl refl refl refl
            refl refl refl refl
          ∙ arg_optional id)
      ∙ rw (e, e') refl

  -- Two numbers, and behind them the window's id.
  abbrev numbers_and_id : CString → CString → CString → CString → Option CString → j.Json
  numbers_and_id key key' x y id =
      add_text j
        (j.object_add (j.object_add j.new_object key (j.new_int (atoi x))) key'
          (j.new_int (atoi y)))
        (codes "id") (get_elem? (optional id) 0)

  numbers_done :
      (action x y : CString) (id : Option CString) (m : WindowMethod) (key key' : CString)
      (call : CString → ℤ → ℤ → Call j)
      → method_of (method_for (codes "window") action) ≡ some (window m)
      → run_method j d b h fd s
          (some (method_params j parse (x ∷ y ∷ optional id) (window m)))
          (window m)
        ≡ some (
            on_window j b s (some (numbers_and_id key key' x y id)) (codes "id") (λ w.
              call w
                (param_int j (some (numbers_and_id key key' x y id)) key (pos 0))
                (param_int j (some (numbers_and_id key key' x y id)) key' (pos 0))))
      → str_eq key key ≡ true
      → str_eq key' key' ≡ true
      → str_eq (codes "id") key ≡ false
      → str_eq (codes "id") key' ≡ false
      → str_eq key' key ≡ false
      → str_eq key (codes "id") ≡ false
      → str_eq key' (codes "id") ≡ false
      → calls_of j (
          handle_request j d b fd h s
            (request_of j parse (codes "window") action (x ∷ y ∷ optional id)))
        ≡ some (on j b id (λ w. call w (atoi x) (atoi y)))
  unfolding str_eq
  numbers_done action x y id m key key' call found ran same same' skip skip' other before before' =
      let rest = get_elem? (optional id) 0 in
      let v = j.new_int (atoi x) in
      let v' = j.new_int (atoi y) in
      let o = numbers_and_id key key' x y id in
      let e = read_number j laws o key (atoi x) (pos 0) (
        get_first j laws v v' key key' (codes "id") rest same same' refl skip skip' other before
          before') in
      let e' = read_number j laws o key' (atoi y) (pos 0) (
        get_second j laws v v' key key' (codes "id") rest same same' refl skip skip' other before
          before') in
      on_named j laws d b h fd s parse (codes "window") action (x ∷ y ∷ optional id) (window m) o
        (codes "id") id _ found ran
        (get_third j laws v v' key key' (codes "id") rest same same' refl skip skip' other before
            before'
          ∙ arg_optional id)
      ∙ ap (λ n. some (on j b id (λ w. call w n (param_int j (some o) key' (pos 0))))) e
      ∙ ap (λ n. some (on j b id (λ w. call w (atoi x) n))) e'

  pub move_pixel-done :
      (x y : CString) (id : Option CString) → DoneBy j laws d b h fd s parse (move_pixel x y id)
  unfolding DoneBy words meant method_of method_for run_method window_method window_params str_eq
      method_params add_text add_number add_two
  move_pixel-done x y id =
      numbers_done (codes "move-pixel") x y id window_move_pixel (codes "x") (codes "y")
        (λ w m n. move_window_pixel w m n) refl refl refl refl refl refl refl refl refl

  pub resize-done :
      (x y : CString) (id : Option CString) → DoneBy j laws d b h fd s parse (resize x y id)
  unfolding DoneBy words meant method_of method_for run_method window_method window_params str_eq
      method_params add_text add_number add_two
  resize-done x y id =
      numbers_done (codes "resize") x y id window_resize (codes "width") (codes "height")
        (λ w m n. resize_window w m n) refl refl refl refl refl refl refl refl refl
