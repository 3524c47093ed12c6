-- ===== src/Cli/Lines.antt =====
-- src/main.c: how `run_subscribe` finds the lines in what it reads.
pub mod Chunks
use axctl_c.Prelude.{
  ℕ, suc, ◌+◌, ◌*◌, Bool, true, false, List, [], ◌∷◌, ◌++◌, Option, none, some, CString, leb, ◌==◌,
  if◌then◌else◌, length,
}

-- The line read so far, of length `line_len`, and the size of the buffer.
pub record LineBuf : Type 0 where
  pub line : CString
  pub line_cap : ℕ

abbrev pub new_line_buf : LineBuf
new_line_buf = record { line = []; line_cap = 262144 }

-- The buffer is doubled if the byte and a terminator do not fit; `realloc` succeeds.
unfoldable pub put_byte : LineBuf → ℕ → LineBuf
put_byte b c = record {
  line = b.line ++ c ∷ [];
  line_cap = if leb b.line_cap (length b.line + 1) then b.line_cap * 2 else b.line_cap;
}

-- A line that is empty is passed over.
unfoldable pub add_line : CString → List CString → List CString
add_line [] lines = lines
add_line (c ∷ line) lines = (c ∷ line) ∷ lines

-- The loop over one buffer that was read: the lines that it ends, and what is left.
unfoldable pub read_bytes : LineBuf → CString → List CString × LineBuf
unfolding put_byte add_line
read_bytes b [] = ([], b)
read_bytes b (c ∷ bytes) = elim (c == 10) [
  | true ↦
      let (lines, b') = read_bytes (record b { line = [] }) bytes in (add_line b.line lines, b')
  | false ↦ read_bytes (put_byte b c) bytes
]

-- The loop over the reads.
unfoldable pub read_all : LineBuf → List CString → List CString × LineBuf
unfolding read_bytes
read_all b [] = ([], b)
read_all b (bytes ∷ reads) =
    let (lines, b') = read_bytes b bytes in
    let (later, b'') = read_all b' reads in (lines ++ later, b'')
