-- ===== src/Text/Copy.antt =====
-- The measuring and copying functions of mckrnl/utils/string.c on C strings: `cs ++ 0 ∷ rest`, where
-- `cs` holds no zero byte.
use goofy_micro_os.Prelude.{
  ℕ, zero, suc, ◌+◌, ◌≤◌, ◌<◌, min, ◌≡◌, refl, false, some, [], ◌∷◌, ◌++◌, arith, ◌==◌, length,
  take, drop, replicate,
}
use goofy_micro_os.Text.{
  Bytes, strcpy, strlen_from, strlen, strnlen_from, strnlen, append_at, strcat, memcpy, memset, at,
  null, strchr,
}

-- No byte of `cs` is the terminator.
abbrev pub NoNul : Bytes → Type 0
NoNul [] = Unit
NoNul (c ∷ cs) = (0 < c) × NoNul cs

strlen_from-add :
    (cs rest : Bytes) (i : ℕ) → NoNul cs → strlen_from (cs ++ 0 ∷ rest) i ≡ some (i + length cs)
unfolding strlen_from
strlen_from-add [] rest i h = ground arith
strlen_from-add (c ∷ cs) rest i h = ground (arith, strlen_from-add cs rest (i + 1) h.1)

-- `strlen` of a string is the number of bytes before its terminator.
pub strlen-length : (cs rest : Bytes) → NoNul cs → strlen (cs ++ 0 ∷ rest) ≡ some (length cs)
unfolding strlen
strlen-length cs rest h = ground (arith, strlen_from-add cs rest 0 h)

strnlen_from-add :
    (cs rest : Bytes) (left i : ℕ)
    → NoNul cs
    → strnlen_from (cs ++ 0 ∷ rest) left i ≡ some (i + min left (length cs))
unfolding strnlen_from
strnlen_from-add [] rest zero i h = ground arith
strnlen_from-add [] rest (suc n) i h = ground arith
strnlen_from-add (c ∷ cs) rest zero i h = ground arith
strnlen_from-add (c ∷ cs) rest (suc n) i h = ground (arith, strnlen_from-add cs rest n (i + 1) h.1)

-- `strnlen` stops at the bound or at the terminator, whichever comes first.
pub strnlen-min :
    (cs rest : Bytes) (maxlen : ℕ)
    → NoNul cs
    → strnlen (cs ++ 0 ∷ rest) maxlen ≡ some (min maxlen (length cs))
unfolding strnlen
strnlen-min cs rest maxlen h = ground (arith, strnlen_from-add cs rest maxlen 0 h)

-- `strcpy` of a string of at least one byte into a destination with room copies its bytes, and
-- leaves what follows in the destination as it was: no terminator is written.
pub strcpy_lem :
    (c : ℕ) (cs rest dest : Bytes)
    → NoNul (c ∷ cs)
    → length (c ∷ cs) ≤ length dest
    → strcpy dest (c ∷ (cs ++ 0 ∷ rest)) ≡ some (c ∷ (cs ++ drop (length (c ∷ cs)) dest))
unfolding strcpy
strcpy_lem c cs rest [] h room = absurd (omega arith)
strcpy_lem c [] rest (d ∷ dest) h room = refl
strcpy_lem c (b ∷ cs) rest (d ∷ dest) h room =
    ground (arith, strcpy_lem b cs rest dest h.1 (omega arith))

-- `strcpy` of the empty string runs on: it copies the terminator and then the bytes behind it, up
-- to the next zero byte.
pub strcpy_empty :
    (c d : ℕ) (cs rest dest : Bytes)
    → NoNul (c ∷ cs)
    → length (c ∷ cs) ≤ length dest
    → strcpy (d ∷ dest) (0 ∷ c ∷ (cs ++ 0 ∷ rest))
      ≡ some (0 ∷ c ∷ (cs ++ drop (length (c ∷ cs)) dest))
unfolding strcpy
strcpy_empty c d cs rest dest h room = ground (arith, strcpy_lem c cs rest dest h room)

append_at_lem :
    (d : ℕ) (dest cs rest : Bytes)
    → NoNul cs
    → length cs ≤ length dest
    → append_at (d ∷ dest) (cs ++ 0 ∷ rest) ≡ some (cs ++ 0 ∷ drop (length cs) dest)
unfolding append_at
append_at_lem d dest [] rest h room = refl
append_at_lem d [] (c ∷ cs) rest h room = absurd (omega arith)
append_at_lem d (e ∷ dest) (c ∷ cs) rest h room =
    ground (arith, append_at_lem e dest cs rest h.1 (omega arith))

-- `strcat` puts the second string behind the first and terminates the result, where the
-- destination has room for both and the terminator.
pub strcat_lem :
    (ds cs rest room : Bytes)
    → NoNul ds
    → NoNul cs
    → length cs ≤ length room
    → strcat (ds ++ 0 ∷ room) (cs ++ 0 ∷ rest) ≡ some (ds ++ (cs ++ 0 ∷ drop (length cs) room))
unfolding strcat
strcat_lem [] cs rest room hd hc fits = ground (arith, append_at_lem 0 room cs rest hc fits)
strcat_lem (d ∷ ds) cs rest room hd hc fits =
    ground (arith, strcat_lem ds cs rest room hd.1 hc fits)

-- `memcpy` replaces the first `n` bytes of the destination by those of the source, where both have
-- as many.
pub memcpy_lem :
    (dest src : Bytes) (n : ℕ)
    → n ≤ length dest
    → n ≤ length src
    → memcpy dest src n ≡ some (take n src ++ drop n dest)
unfolding memcpy
memcpy_lem dest src zero a b = refl
memcpy_lem (d ∷ dest) (c ∷ src) (suc n) a b =
    ground (arith, memcpy_lem dest src n (omega arith) (omega arith))
memcpy_lem [] src (suc n) a b = absurd (omega arith)
memcpy_lem (d ∷ dest) [] (suc n) a b = absurd (omega arith)

-- `memset` fills the first `n` bytes.
pub memset_lem :
    (start : Bytes) (value n : ℕ)
    → n ≤ length start
    → memset start value n ≡ some (replicate n value ++ drop n start)
unfolding memset
memset_lem start value zero a = refl
memset_lem [] value (suc n) a = absurd (omega arith)
memset_lem (d ∷ start) value (suc n) a = ground (arith, memset_lem start value n (omega arith))

-- `chr` does not occur in `cs`.
abbrev pub Without : ℕ → Bytes → Type 0
Without chr [] = Unit
Without chr (c ∷ cs) = ((c == chr) ≡ false) × Without chr cs

-- `strchr` gives the first place of the byte.
pub strchr-at :
    (cs rest : Bytes) (chr : ℕ)
    → NoNul cs
    → Without chr cs
    → 0 < chr
    → strchr (cs ++ chr ∷ rest) chr ≡ some (at (chr ∷ rest))
unfolding strchr
strchr-at [] rest chr h w pos = ground arith
strchr-at (c ∷ cs) rest chr h w pos = ground (arith, strchr-at cs rest chr h.1 w.1 pos)

-- `strchr` gives the null pointer where the byte does not occur before the terminator.
pub strchr-null :
    (cs rest : Bytes) (chr : ℕ)
    → NoNul cs
    → Without chr cs
    → strchr (cs ++ 0 ∷ rest) chr ≡ some null
unfolding strchr
strchr-null [] rest chr h w = refl
strchr-null (c ∷ cs) rest chr h w = ground (arith, strchr-null cs rest chr h.1 w.1)
