-- ===== src/Text.antt =====
-- mckrnl/utils/string.c. A pointer to a constant string is the list of the bytes from it to the end
-- of its object, so a read past the end is the missing case, `none`; a destination is the list of
-- the bytes that may be written, and comes back changed.
pub mod Copy
pub mod Compare
pub mod Paths
mod Tests
use goofy_micro_os.Prelude.{
  ℕ, zero, suc, ◌+◌, ◌-◌, ◌%◌, Bool, true, false, not, ◌&&◌, ◌||◌, Option, none, some, List, [],
  ◌∷◌, ltb, leb, ◌==◌, if◌then◌else◌, between,
}
use goofy_micro_os.Prelude.Int.{ℤ, pos, sub_ℕ}
use goofy_micro_os.Prelude.Options.{◌>>=◌}

abbrev pub Bytes : Type 0
Bytes = List ℕ

-- `do *dest++ = *src++; while (*src != 0);`
unfoldable pub strcpy : Bytes → Bytes → Option Bytes
strcpy (d ∷ dest) (c ∷ next ∷ src) =
    let rest = strcpy dest (next ∷ src) in
    if next == 0 then some (c ∷ dest) else rest >>= λ copied. some (c ∷ copied)
strcpy _ _ = none

-- `i` counts up from its start.
unfoldable pub strlen_from : Bytes → ℕ → Option ℕ
strlen_from [] i = none
strlen_from (c ∷ src) i = let rest = strlen_from src (i + 1) in if c == 0 then some i else rest

unfoldable pub strlen : Bytes → Option ℕ
unfolding strlen_from
strlen src = strlen_from src 0

-- `for (i = 0; i < maxlen; ++i) if (s[i] == 0) break;` with `left` rounds to go
unfoldable pub strnlen_from : Bytes → ℕ → ℕ → Option ℕ
strnlen_from s zero i = some i
strnlen_from [] (suc left) i = none
strnlen_from (c ∷ s) (suc left) i =
    let rest = strnlen_from s left (i + 1) in if c == 0 then some i else rest

unfoldable pub strnlen : Bytes → ℕ → Option ℕ
unfolding strnlen_from
strnlen s maxlen = strnlen_from s maxlen 0

-- What a search in a string gives back: a pointer into it, or the null pointer.
pub data Search : Type 0 where
  at : Bytes → Search
  null : Search

-- `chr` is a byte already: the source narrows it to `char`.
unfoldable pub strchr : Bytes → ℕ → Option Search
strchr [] chr = none
strchr (c ∷ str) chr =
    let rest = strchr str chr in
    if c == 0 then some null else if c == chr then some (at (c ∷ str)) else rest

-- The copying loop and the final zero of `strcat`.
unfoldable pub append_at : Bytes → Bytes → Option Bytes
append_at _ [] = none
append_at [] _ = none
append_at (d ∷ dest) (c ∷ src) =
    let rest = append_at dest src in
    if c == 0 then some (0 ∷ dest) else rest >>= λ copied. some (c ∷ copied)

unfoldable pub strcat : Bytes → Bytes → Option Bytes
strcat [] src = none
strcat (d ∷ dest) src =
    let rest = strcat dest src in
    if d == 0 then append_at (d ∷ dest) src else rest >>= λ copied. some (d ∷ copied)

unfoldable pub memcpy : Bytes → Bytes → ℕ → Option Bytes
memcpy dest src zero = some dest
memcpy (d ∷ dest) (c ∷ src) (suc n) = memcpy dest src n >>= λ copied. some (c ∷ copied)
memcpy _ _ (suc n) = none

unfoldable pub memset : Bytes → ℕ → ℕ → Option Bytes
memset start value zero = some start
memset (d ∷ start) value (suc n) = memset start value n >>= λ filled. some (value ∷ filled)
memset [] value (suc n) = none

-- The bytes are `unsigned char` here.
unfoldable pub memcmp : Bytes → Bytes → ℕ → Option ℤ
memcmp s1 s2 zero = some (pos 0)
memcmp (a ∷ s1) (b ∷ s2) (suc n) =
    let rest = memcmp s1 s2 n in if a == b then rest else some (sub_ℕ a b)
memcmp _ _ (suc n) = none

-- `*str1 - *str2` on signed `char`: both shifted by 128, the difference is the same.
abbrev pub char_diff : ℕ → ℕ → ℤ
char_diff a b = sub_ℕ ((a + 128) % 256) ((b + 128) % 256)

unfoldable pub strcmp : Bytes → Bytes → Option ℤ
strcmp (a ∷ str1) (b ∷ str2) =
    let rest = strcmp str1 str2 in
    if not (a == 0) && not (b == 0) && a == b then rest else some (char_diff a b)
strcmp _ _ = none

-- What `copy_until` gives: the destination written, and the pointer past the separator.
abbrev pub Copied : Type 0
Copied = Bytes × Bytes

unfoldable pub copy_until : ℕ → Bytes → Bytes → Option Copied
copy_until sep [] dest = none
copy_until sep (c ∷ src) [] = none
copy_until sep (c ∷ src) (d ∷ dest) =
    let rest = copy_until sep src dest in
    if c == 0
    then some (0 ∷ dest, c ∷ src)
    else if c == sep
    then some (0 ∷ dest, src)
    else rest >>= λ (copied, next). some (c ∷ copied, next)

-- `tolower` on `char`s, of which the letters are positive
abbrev pub tolower : ℕ → ℕ
tolower c = if between b'A' b'Z' c then c + 32 else c

unfoldable pub strcasecmp : Bytes → Bytes → Option ℤ
strcasecmp (a ∷ str1) (b ∷ str2) =
    let rest = strcasecmp str1 str2 in
    if not (a == 0) && tolower a == tolower b
    then rest
    else some (char_diff (tolower a) (tolower b))
strcasecmp _ _ = none
