-- ===== src/Idle/Checks.antt =====
-- src/server/idle.c: the checks of media players and of applications. What `pactl`, `hyprctl` and
-- /proc answer are parameters: the lines of the first, and the names that the others list.
use axctl_c.Prelude.{
  ℕ, zero, suc, ◌-◌, Bool, true, false, not, ◌&&◌, ◌||◌, List, [], ◌∷◌, ◌++◌, map, reverse, Option,
  none, some, pos, is_zero, ltb, ◌==◌, if◌then◌else◌, length, take, drop, CString, codes, str_eq,
}
use axctl_c.Json.{JsonC}
use axctl_c.Strutil.{tolower, strncmp_eq, strcasecmp}

-- The inner loop of `str_contains_ci`, on the rest of the haystack.
unfoldable pub matches_at : CString → CString → Bool
unfolding tolower
matches_at haystack [] = true
matches_at [] (n ∷ needle) = false
matches_at (h ∷ haystack) (n ∷ needle) =
    if tolower h == tolower n then matches_at haystack needle else false

-- The outer loop, with the number of rounds left.
unfoldable pub contains_scan : ℕ → CString → CString → Bool
unfolding matches_at
contains_scan zero haystack needle = false
contains_scan (suc rounds) [] needle = matches_at [] needle
contains_scan (suc rounds) (h ∷ haystack) needle =
    if matches_at (h ∷ haystack) needle then true else contains_scan rounds haystack needle

unfoldable pub str_contains_ci : Option CString → Option CString → Bool
unfolding contains_scan
str_contains_ci none needle = false
str_contains_ci (some haystack) none = false
str_contains_ci (some haystack) (some needle) =
    if ltb (length haystack) (length needle)
    then false
    else contains_scan (suc (length haystack - length needle)) haystack needle

-- Does one of the texts occur? One that is NULL does not.
unfoldable pub contains_one : CString → List (Option CString) → Bool
contains_one s [] = false
contains_one s (p ∷ patterns) = if str_contains_ci (some s) p then true else contains_one s patterns

abbrev pub media_blacklist : List CString
media_blacklist =
    codes "speech-dispatcher"
    ∷ codes "speech-dispatcher-dummy"
    ∷ codes "sndio"
    ∷ codes "pipewire"
    ∷ codes "wireplumber"
    ∷ codes "galene"
    ∷ []

unfoldable pub is_media_blacklisted : CString → Bool
unfolding contains_one
is_media_blacklisted app = contains_one app (map some media_blacklist)

-- The variables of the loop over one block of the listing.
pub record Sink : Type 0 where
  pub corked : Bool
  pub muted : Bool
  pub app_name : CString
  pub in_props : Bool

abbrev pub new_sink : Sink
new_sink = record { corked = false; muted = false; app_name = []; in_props = false }

-- `while (*trimmed == ' ' || *trimmed == '\t') trimmed++;`
unfoldable pub skip_blanks : CString → CString
skip_blanks [] = []
skip_blanks (c ∷ s) = if c == b' ' || c == 9 then skip_blanks s else c ∷ s

unfoldable pub skip_quotes : CString → CString
skip_quotes [] = []
skip_quotes (c ∷ s) = if c == 34 then skip_quotes s else c ∷ s

-- The loop from the end, over the text from its last byte to its first: `end > p` keeps one byte.
unfoldable pub strip_back : CString → CString
strip_back [] = []
strip_back (c ∷ []) = c ∷ []
strip_back (c ∷ d ∷ s) = if c == 10 || c == 13 || c == 34 then strip_back (d ∷ s) else c ∷ d ∷ s

-- The value of a property, cut to the 255 bytes that `app_name` holds.
unfoldable pub property_value : CString → CString
unfolding skip_quotes strip_back
property_value val = take 255 (reverse (strip_back (reverse (skip_quotes val))))

unfoldable pub is_header : CString → Bool
is_header trimmed =
    strncmp_eq 12 trimmed (codes "Sink Input #") || strncmp_eq 11 trimmed (codes "SinkInput #")

-- `strcasecmp(trimmed, flag "\n") == 0 || strcasecmp(trimmed, flag "\r\n") == 0`
unfoldable pub is_flag : CString → CString → Bool
is_flag trimmed flag =
    is_zero (strcasecmp (some trimmed) (some (flag ++ codes "\n")))
    || is_zero (strcasecmp (some trimmed) (some (flag ++ (13 ∷ 10 ∷ []))))

unfoldable pub is_properties : CString → Bool
is_properties trimmed =
    str_eq trimmed (codes "Properties:\n") || str_eq trimmed (codes "Properties:" ++ (13 ∷ 10 ∷ []))

-- The last part of a round: the name of the application, while there is none.
unfoldable pub read_name : Sink → CString → Sink
unfolding property_value
read_name sink trimmed =
    if sink.in_props && str_eq sink.app_name []
    then (if strncmp_eq 19 trimmed (codes "application.name = ")
        then record sink { app_name = property_value (drop 19 trimmed) }
        else if strncmp_eq 29 trimmed (codes "application.process.binary = ")
        then record sink { app_name = property_value (drop 29 trimmed) }
        else sink)
    else sink

-- A round for a line that begins no block.
unfoldable pub read_line : Sink → CString → Sink
unfolding is_flag is_properties read_name
read_line sink trimmed =
    let corked = record sink { corked = sink.corked || is_flag trimmed (codes "Corked: yes") } in
    let muted = record corked { muted = sink.muted || is_flag trimmed (codes "Mute: yes") } in
    if is_properties trimmed then record muted { in_props = true } else read_name muted trimmed

-- A block that is neither corked nor muted and has a name that is not on the list.
unfoldable pub counts : Sink → Bool
counts sink =
    not sink.corked
    && not sink.muted
    && not (str_eq sink.app_name [])
    && not (is_media_blacklisted sink.app_name)

-- What the end of a block adds to the list; `none` is `!in_block`, where the test fails at once.
unfoldable pub end_block : List CString → Option Sink → List CString
end_block apps none = apps
end_block apps (some sink) = if counts sink then apps ++ sink.app_name ∷ [] else apps

-- The loop. Before the first block the other variables are read and written too, but the block's
-- beginning sets them afresh.
unfoldable pub media_lines : List CString → Option Sink → List CString → List CString
unfolding skip_blanks is_header
media_lines apps block [] = end_block apps block
media_lines apps block (line ∷ lines) = elim (is_header (skip_blanks line)) [
  | true ↦ media_lines (end_block apps block) (some new_sink) lines
  | false ↦ elim block [
    | none ↦ media_lines apps none lines
    | some sink ↦ media_lines apps (some (read_line sink (skip_blanks line))) lines
  ]
]

abbrev pub default_patterns : List CString
default_patterns =
    codes "vlc"
    ∷ codes "mpv"
    ∷ codes "firefox"
    ∷ codes "chromium"
    ∷ codes "chrome"
    ∷ codes "brave"
    ∷ codes "vivaldi"
    ∷ codes "steam"
    ∷ []

abbrev pub patterns_or_default : List (Option CString) → List (Option CString)
patterns_or_default [] = map some default_patterns
patterns_or_default (p ∷ patterns) = p ∷ patterns

module _ (j : JsonC) where
  unfoldable pub string_array : j.Json → List CString → j.Json
  string_array a [] = a
  string_array a (s ∷ strings) = string_array (j.array_add a (j.new_string s)) strings

  -- `none` is a `pactl` that cannot be run.
  unfoldable pub media_check : Option (List CString) → j.Json
  unfolding media_lines string_array
  media_check pactl =
      let apps : List CString = elim pactl [ none ↦ [] | some lines ↦ media_lines [] none lines ] in
      j.object_add (j.object_add j.new_object (codes "count") (j.new_int (pos (length apps))))
        (codes "apps") (string_array j.new_array apps)

  -- The loop over the classes of the windows, or over the names of the processes.
  unfoldable pub add_matches : List (Option CString) → j.Json → List CString → j.Json
  add_matches patterns result [] = result
  add_matches patterns result (name ∷ names) =
      let result' =
        if contains_one name patterns
        then j.object_add result name (j.new_boolean true)
        else result in
      add_matches patterns result' names

  unfoldable pub app_check : List (Option CString) → List CString → j.Json
  unfolding add_matches
  app_check patterns names = add_matches (patterns_or_default patterns) j.new_object names
