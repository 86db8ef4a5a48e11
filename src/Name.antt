-- ===== src/Name.antt =====
-- lib/fat/name.c: the 8.3 names of directory entries. A C string is the list of its bytes before
-- the terminating NUL, so `*src` is 0 exactly at the end of the list; `dst` is an array of 11
-- bytes, written by index. Bytes are only moved and compared with the dot and the space.
pub mod Spec
pub mod Long
pub mod RoundTrip
pub mod Tests
use ccpu_libsys.Prelude.{
  ℕ, zero, suc, ◌+◌, List, [], ◌∷◌, ◌++◌, ◌==◌, if◌then◌else◌, set, get_or, replicate,
}

-- The loops `for (i = …; *src && i != …)`: at most `n` bytes go to `dst[i]`, `dst[i + 1]`, ….
pub copy_from : (n i : ℕ) → List ℕ → List ℕ → List ℕ
copy_from zero i src dst = dst
copy_from (suc n) i [] dst = dst
copy_from (suc n) i (c ∷ src) dst = copy_from n (i + 1) src (set dst i c)

-- The base name's loop stops at a dot too. The result is where `src` points then, and `dst`.
pub copy_base : (n i : ℕ) → List ℕ → List ℕ → List ℕ × List ℕ
copy_base zero i src dst = (src, dst)
copy_base (suc n) i [] dst = ([], dst)
copy_base (suc n) i (c ∷ src) dst =
    let rest = copy_base n (i + 1) src (set dst i c) in if c == b'.' then (c ∷ src, dst) else rest

-- `while (c && c != '.')`: the rest of a base name that is too long.
pub skip_base : List ℕ → List ℕ
skip_base [] = []
skip_base (c ∷ src) = let rest = skip_base src in if c == b'.' then c ∷ src else rest

-- Where `src` points when the extension's loop begins.
pub find_ext : List ℕ → List ℕ
find_ext [] = []
find_ext (c ∷ src) = let rest = skip_base (c ∷ src) in if c == b'.' then src else rest

pub to_dotless_name : List ℕ → List ℕ → List ℕ
unfolding copy_from copy_base find_ext skip_base
to_dotless_name dst src =
    let (src', dst') = copy_base 8 0 src dst in copy_from 3 8 (find_ext src') dst'

-- `to_fat_name`: `dst` is what the 11 bytes hold after the `memset`.
pub to_fat_name : List ℕ → List ℕ
unfolding to_dotless_name
to_fat_name [] = to_dotless_name (replicate 11 b' ') []
to_fat_name (c ∷ src) =
    let dst : List ℕ = replicate 11 b' ' in
    if c == b'.' then copy_from 11 0 (c ∷ src) dst else to_dotless_name dst (c ∷ src)

-- The loops of `from_fat_name`: the bytes of `src[i]`, … up to a space, `n` at most.
pub copy_field : (n i : ℕ) → List ℕ → List ℕ
copy_field zero i src = []
copy_field (suc n) i src =
    let rest = get_or src i 0 ∷ copy_field n (i + 1) src in
    if get_or src i 0 == b' ' then [] else rest

pub from_fat_name : List ℕ → List ℕ
from_fat_name src =
    copy_field 8 0 src ++ (if get_or src 8 0 == b' ' then [] else b'.' ∷ copy_field 3 8 src)
