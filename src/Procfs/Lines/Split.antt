-- ===== src/Procfs/Lines/Split.antt =====
-- A line that ends with a newline is the first that the loop over a file's lines gives.
use mikroscope.Common.{[], ◌∷◌, ◌++◌, false, Bytes, add_front, ◌≡◌, refl, All, ◌==◌}
use mikroscope.Procfs.Lines.{split_lines}

pub split_lines-newline :
    (line rest : Bytes)
    → All (λ c. (c == 10) ≡ false) line
    → split_lines (line ++ 10 ∷ rest) ≡ line ∷ split_lines rest
unfolding split_lines add_front
split_lines-newline [] rest h = refl
split_lines-newline (b ∷ line) rest h = rw (h.0, split_lines-newline line rest h.1) refl
