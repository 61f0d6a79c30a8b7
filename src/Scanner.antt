-- ===== src/Scanner.antt =====
-- `bufio.Scanner` with `bufio.ScanLines`, as internal/reporter uses it: the lines up to the end of the
-- input, or up to the first one that does not fit the scanner's buffer of 64 KiB. Nobody asks for
-- the error that the scanner then holds.
use mathlib.Core.List.{reverse}
use spyre_health_checker.Base.{ℕ, ◌+◌, List, [], ◌∷◌, Text, if◌then◌else◌, ltb, split, ◌==◌}

-- How many bytes UTF-8 takes for a code point, and for a text.
unfoldable pub utf8_length : ℕ → ℕ
utf8_length c = if ltb c 0x80 then 1 else if ltb c 0x800 then 2 else if ltb c 0x10000 then 3 else 4

unfoldable pub byte_length : Text → ℕ
unfolding utf8_length
byte_length [] = 0
byte_length (c ∷ s) = utf8_length c + byte_length s

abbrev pub max_scan_token_size : ℕ
max_scan_token_size = 65536

-- A final newline ends the last line, and does not begin an empty one.
unfoldable pub drop_empty_last : List Text → List Text
drop_empty_last [] = []
drop_empty_last ([] ∷ []) = []
drop_empty_last (line ∷ lines) = line ∷ drop_empty_last lines

unfoldable pub drop_cr_reversed : Text → Text
drop_cr_reversed [] = []
drop_cr_reversed (c ∷ s) = if c == 13 then s else c ∷ s

unfoldable pub drop_cr : Text → Text
unfolding drop_cr_reversed
drop_cr s = reverse (drop_cr_reversed (reverse s))

-- The lines before the first one that is too long.
unfoldable pub scannable : List Text → List Text
unfolding byte_length drop_cr
scannable [] = []
scannable (line ∷ lines) =
    let rest = scannable lines in
    if ltb (byte_length line) max_scan_token_size then drop_cr line ∷ rest else []

unfoldable pub scan_lines : Text → List Text
unfolding scannable drop_empty_last split
scan_lines s = scannable (drop_empty_last (split 10 s))
