-- ===== src/Logger/Examples.antt =====
-- A log file of src/logger.c with three lines.
use myclib.Prelude.{ℕ, ◌≡◌, ◌⊎◌, refl, none, some, List, [], ◌∷◌, ◌++◌, length, drop, arith}
use myclib.Logger.{writeback_file, fine, NoNewline, writeback_file-lines}

abbrev file : List ℕ
file = b'a' ∷ b'b' ∷ b'\n' ∷ b'c' ∷ b'\n' ∷ b'd' ∷ b'\n' ∷ []

cut_test : writeback_file fine file 5 3 ≡ some (some 2, b'd' ∷ b'\n' ∷ [])
unfolding writeback_file
cut_test = refl

-- a file that is shorter than what is to be dropped
short_test : writeback_file fine file 5 1024 ≡ none
unfolding writeback_file
short_test = refl

writeback_file-lines_example :
    ((writeback_file fine file 5 3 ≡ none) × NoNewline (drop 3 file))
    ⊎ ((dropped line kept : List ℕ) × (file ≡ dropped ++ (line ++ b'\n' ∷ kept))
        × (length dropped ≡ 3)
        × NoNewline line
        × (writeback_file fine file 5 3 ≡ some (some (length kept), kept)))
writeback_file-lines_example = writeback_file-lines file 5 3 (omega arith) (omega arith)
