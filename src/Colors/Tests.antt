-- ===== src/Colors/Tests.antt =====
-- The cases of test/test_colors.c, and the theorems on colors at concrete strings.
use axctl_c.Prelude.{◌≡◌, refl, ap, [], ◌++◌, none, some, codes, str_eq}
use axctl_c.Strutil.{isspace, strncmp_eq}
use axctl_c.Colors.{
  first_word, hyprland_digits, hyprland_color, parse_color_string, is_separator, parse_token,
  is_angle, is_rgb, is_hex, add_color, mango_hex, mango_token, mango_color, isxdigit, flush_token,
  strip_hash,
}
use axctl_c.Colors.Gradient.{parse_color_string-again}
use axctl_c.Colors.Notations.{HexDigits, mango_notations}

gradient :
    parse_color_string (some (codes "#ff3838 rgba(222222ff)  45deg x"))
    ≡ (some (codes "rgba(ff3838ff) rgba(222222ff)"), some (codes "45deg"))
unfolding parse_color_string parse_token is_separator is_angle is_rgb is_hex add_color
    hyprland_color hyprland_digits flush_token strncmp_eq strip_hash str_eq
gradient = refl

shorthand : mango_color (some (codes "rgb(#abc) 45deg")) ≡ codes "0xaabbccff"
unfolding mango_color mango_token isspace mango_hex
shorthand = refl

digits : HexDigits (codes "ff3838")
unfolding isxdigit
digits = (refl, (refl, (refl, (refl, (refl, (refl, tt))))))

digits_alpha : HexDigits (codes "ff383880")
unfolding isxdigit
digits_alpha = (refl, (refl, (refl, (refl, (refl, (refl, (refl, (refl, tt))))))))

space_ends : first_word (codes " 45deg") ≡ []
unfolding first_word isspace
space_ends = refl

mango_notations_example :
    let color = codes "0x" ++ mango_hex (codes "ff3838") in
    (mango_color (some (codes "ff3838 45deg")) ≡ color)
    × (mango_color (some (codes "#ff3838 45deg")) ≡ color)
    × (mango_color (some (codes "0xff3838 45deg")) ≡ color)
    × (mango_color (some (codes "rgba(ff3838) 45deg")) ≡ color)
mango_notations_example = mango_notations b'f' (codes "f3838") (codes " 45deg") digits space_ends

parse_color_string-again_example :
    parse_color_string (some (codes "rgba(ff3838ff) rgba(222222ff)"))
    ≡ (some (codes "rgba(ff3838ff) rgba(222222ff)"), none)
parse_color_string-again_example =
    parse_color_string-again (some (codes "#ff3838 rgba(222222ff)  45deg x"))
      (codes "rgba(ff3838ff) rgba(222222ff)") (ap (λ r. r.0) gradient)
