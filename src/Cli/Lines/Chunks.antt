-- ===== src/Cli/Lines/Chunks.antt =====
-- The lines of `run_subscribe` do not depend on where the reads end, and the buffer is never overrun.
use axctl_c.Prelude.{
  ◌≡◌, refl, sym, ap, inl, inr, ◌≤◌, Bool-cases, arith, ℕ, ◌+◌, List, [], ◌∷◌, ◌++◌, CString, ◌==◌,
  length, length-append,
}
use axctl_c.Cli.Lines.{LineBuf, new_line_buf, put_byte, add_line, read_bytes, read_all}

-- The bytes of all reads.
pub concat : List CString → CString
concat [] = []
concat (bytes ∷ reads) = bytes ++ concat reads

concat-add_line :
    (line : CString) (lines later : List CString)
    → add_line line lines ++ later ≡ add_line line (lines ++ later)
unfolding add_line
concat-add_line [] lines later = refl
concat-add_line (c ∷ line) lines later = refl

read_bytes-concat :
    (b : LineBuf) (bytes more : CString)
    → (read_bytes b (bytes ++ more) ≡ (
      (read_bytes b bytes).0 ++ (read_bytes (read_bytes b bytes).1 more).0,
      (read_bytes (read_bytes b bytes).1 more).1,
    ))
unfolding read_bytes
read_bytes-concat b [] more = refl
read_bytes-concat b (c ∷ bytes) more = elim (Bool-cases (c == 10)) [
  | inl end ↦
      rw (end, read_bytes) rw (read_bytes-concat (record b { line = [] }) bytes more)
        (ap (λ x. (x, (read_bytes (read_bytes (record b { line = [] }) bytes).1 more).1))
          (sym (concat-add_line b.line _ _)))
  | inr other ↦ rw (other, read_bytes) (read_bytes-concat (put_byte b c) bytes more)
]

read_all-concat :
    (b : LineBuf) (reads : List CString) → read_all b reads ≡ read_bytes b (concat reads)
unfolding read_all concat read_bytes
read_all-concat b [] = refl
read_all-concat b (bytes ∷ reads) =
    rw (read_bytes-concat b bytes (concat reads)) rw (read_all-concat (read_bytes b bytes).1 reads)
      refl

-- The pieces that are not empty.
pub drop_empty : List CString → List CString
unfolding add_line
drop_empty [] = []
drop_empty (s ∷ pieces) = add_line s (drop_empty pieces)

-- The lines that were found, and the last one, which no newline has ended.
pub all_lines : List CString × LineBuf → List CString
unfolding add_line
all_lines (lines, b) = lines ++ add_line b.line []

-- The line and its terminator fit the buffer.
pub Fits : LineBuf → Type 0
Fits b = length b.line + 1 ≤ b.line_cap

put_byte-Fits : (b : LineBuf) (c : ℕ) → Fits b → Fits (put_byte b c)
unfolding Fits put_byte
put_byte-Fits b c fits = ground (arith, length-append b.line (c ∷ []))

read_bytes-Fits : (b : LineBuf) (bytes : CString) → Fits b → Fits (read_bytes b bytes).1
unfolding read_bytes Fits
read_bytes-Fits b [] fits = fits
read_bytes-Fits b (c ∷ bytes) fits = elim (Bool-cases (c == 10)) [
  | inl end ↦ rw (end, read_bytes) (read_bytes-Fits (record b { line = [] }) bytes (omega arith))
  | inr other ↦
      rw (other, read_bytes) (read_bytes-Fits (put_byte b c) bytes (put_byte-Fits b c fits))
]

-- Whatever is read, and wherever the reads end, the line that is being read fits the buffer with its
-- terminator.
pub read_all-Fits : (reads : List CString) → Fits (read_all new_line_buf reads).1
unfolding Fits
read_all-Fits reads =
    rw (read_all-concat new_line_buf reads)
      (read_bytes-Fits new_line_buf (concat reads) (omega arith))
