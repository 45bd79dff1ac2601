-- ===== src/Text/Paths.antt =====
-- `copy_until` of mckrnl/utils/string.c, the step by which the file systems take a path apart.
use goofy_micro_os.Prelude.{ℕ, ◌+◌, ◌<◌, ◌≡◌, some, [], ◌∷◌, ◌++◌, arith, length, drop}
use goofy_micro_os.Text.{Bytes, copy_until}
use goofy_micro_os.Text.Copy.{NoNul, Without}

-- Up to a separator: the piece is copied and terminated, and the pointer is past the separator.
pub copy_until-separator :
    (sep : ℕ) (cs rest dest : Bytes)
    → NoNul cs
    → Without sep cs
    → 0 < sep
    → length cs < length dest
    → copy_until sep (cs ++ sep ∷ rest) dest ≡ some (cs ++ 0 ∷ drop (length cs + 1) dest, rest)
unfolding copy_until
copy_until-separator sep cs rest [] h w pos room = absurd (omega arith)
copy_until-separator sep [] rest (d ∷ dest) h w pos room = ground arith
copy_until-separator sep (c ∷ cs) rest (d ∷ dest) h w pos room =
    ground (arith, copy_until-separator sep cs rest dest h.1 w.1 pos (omega arith))

-- In the last piece of a path: the whole is copied, and the pointer stays on the terminator.
pub copy_until-end :
    (sep : ℕ) (cs rest dest : Bytes)
    → NoNul cs
    → Without sep cs
    → length cs < length dest
    → copy_until sep (cs ++ 0 ∷ rest) dest ≡ some (cs ++ 0 ∷ drop (length cs + 1) dest, 0 ∷ rest)
unfolding copy_until
copy_until-end sep cs rest [] h w room = absurd (omega arith)
copy_until-end sep [] rest (d ∷ dest) h w room = ground arith
copy_until-end sep (c ∷ cs) rest (d ∷ dest) h w room =
    ground (arith, copy_until-end sep cs rest dest h.1 w.1 (omega arith))
