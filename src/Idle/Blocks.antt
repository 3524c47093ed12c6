-- ===== src/Idle/Blocks.antt =====
-- The media check of src/server/idle.c, one block of the listing at a time.
use axctl_c.Prelude.{List, [], ◌∷◌, Option, none, some, CString, codes, if◌then◌else◌}
use axctl_c.Json.{JsonC, JsonLaws}
use axctl_c.Idle.Checks.{Sink, new_sink, skip_blanks, is_header, read_line, counts}

-- The lines before the first header, and the lines behind each header.
unfoldable pub blocks : List CString → List CString × List (List CString)
blocks [] = ([], [])
blocks (line ∷ lines) =
    let (lead, behind) = blocks lines in
    if is_header (skip_blanks line) then ([], lead ∷ behind) else (line ∷ lead, behind)

unfoldable pub read_lines : Sink → List CString → Sink
read_lines sink [] = sink
read_lines sink (line ∷ lines) = read_lines (read_line sink (skip_blanks line)) lines

-- The names of the blocks that are played and not on the list.
unfoldable pub playing : List (List CString) → List CString
unfolding read_lines
playing [] = []
playing (block ∷ rest) =
    let names = playing rest in
    let sink = read_lines new_sink block in if counts sink then sink.app_name ∷ names else names

module _ (j : JsonC) (laws : JsonLaws j) where
  pub apps_of : j.Json → Option (List j.Json)
  apps_of o = elim (j.object_get o (codes "apps")) [ none ↦ none | some a ↦ j.array_items a ]
