-- ===== src/Text/Tests.antt =====
-- The theorems on strings at short strings.
use goofy_micro_os.Prelude.{◌≡◌, refl, some, [], ◌∷◌}
use goofy_micro_os.Prelude.Int.{pos}
use goofy_micro_os.Text.{Bytes, strcmp, strcasecmp}

-- "ab" and "Ab"
abbrev ab : Bytes
ab = b'a' ∷ b'b' ∷ []

abbrev big_ab : Bytes
big_ab = b'A' ∷ b'b' ∷ []

abbrev sevens : Bytes
sevens = 7 ∷ 7 ∷ 7 ∷ 7 ∷ []

strcmp_run : strcmp (b'a' ∷ 0 ∷ []) (b'a' ∷ 0 ∷ []) ≡ some (pos 0)
unfolding strcmp
strcmp_run = refl

strcasecmp_run : strcasecmp (b'A' ∷ b'z' ∷ 0 ∷ []) (b'a' ∷ b'Z' ∷ 0 ∷ []) ≡ some (pos 0)
unfolding strcasecmp
strcasecmp_run = refl
