-- ===== src/Name/Spec.antt =====
-- What `to_fat_name` of lib/fat/name.c makes of a name, by its base and its extension.
use ccpu_libsys.Prelude.{
  ℕ, zero, suc, ◌+◌, ◌≤◌, ◌≡◌, refl, ap, append-nil, ◌∙◌, ◌≢◌, Option, none, some, List, [], ◌∷◌,
  ◌++◌, arith, set, replicate, length, drop, All,
}
use ccpu_libsys.Name.{copy_from, copy_base, skip_base, find_ext, to_dotless_name, to_fat_name}

-- A field of `n` bytes: the text cut to `n` bytes, or filled with spaces.
unfoldable pub pad : ℕ → List ℕ → List ℕ
pad zero s = []
pad (suc n) [] = b' ' ∷ pad n []
pad (suc n) (c ∷ s) = c ∷ pad n s

abbrev pub NotDot : ℕ → Type 0
NotDot c = c ≢ b'.'

-- The end of a name: nothing, or a dot and an extension.
abbrev pub dotted : Option (List ℕ) → List ℕ
dotted none = []
dotted (some e) = b'.' ∷ e

abbrev pub extension : Option (List ℕ) → List ℕ
extension none = []
extension (some e) = e

pub length-pad : (n : ℕ) (s : List ℕ) → length (pad n s) ≡ n
unfolding pad
length-pad zero s = refl
length-pad (suc n) [] = ap suc (length-pad n [])
length-pad (suc n) (c ∷ s) = ap suc (length-pad n s)

-- Writing from the second byte on leaves the first alone.
copy_from-cons :
    (n i x : ℕ) (src dst : List ℕ) → copy_from n (suc i) src (x ∷ dst) ≡ x ∷ copy_from n i src dst
unfolding copy_from
copy_from-cons zero i x src dst = refl
copy_from-cons (suc n) i x [] dst = refl
copy_from-cons (suc n) i x (c ∷ src) dst =
    let e : suc i + 1 ≡ suc (i + 1) = omega arith in
    rw e (copy_from-cons n (i + 1) x src (set dst i c))

pub copy_from-append :
    (n : ℕ) (p src dst : List ℕ)
    → copy_from n (length p) src (p ++ dst) ≡ p ++ copy_from n 0 src dst
copy_from-append n [] src dst = refl
copy_from-append n (x ∷ p) src dst =
    copy_from-cons n (length p) x src (p ++ dst) ∙ ap (λ t. x ∷ t) (copy_from-append n p src dst)

-- The loop fills a field of spaces.
pub copy_from-pad :
    (n : ℕ) (src q : List ℕ) → copy_from n 0 src (replicate n b' ' ++ q) ≡ pad n src ++ q
unfolding copy_from pad
copy_from-pad zero src q = refl
copy_from-pad (suc n) [] q = ap (λ t. b' ' ∷ t) (replicate-eq-pad n)
  where
    replicate-eq-pad : (n : ℕ) → replicate n b' ' ++ q ≡ pad n [] ++ q
    replicate-eq-pad zero = refl
    replicate-eq-pad (suc n) = ap (λ t. b' ' ∷ t) (replicate-eq-pad n)
copy_from-pad (suc n) (c ∷ src) q =
    copy_from-cons n 0 c src (replicate n b' ' ++ q) ∙ ap (λ t. c ∷ t) (copy_from-pad n src q)

-- The base name's loop copies what `copy_from` copies, and stops behind it.
copy_base-eq :
    (n i : ℕ) (b : List ℕ) (o : Option (List ℕ)) (dst : List ℕ)
    → All NotDot b
    → copy_base n i (b ++ dotted o) dst ≡ (drop n b ++ dotted o, copy_from n i b dst)
unfolding copy_base copy_from
copy_base-eq zero i b o dst h = refl
copy_base-eq (suc n) i [] none dst h = refl
copy_base-eq (suc n) i [] (some e) dst h = refl
copy_base-eq (suc n) i (c ∷ b) o dst h =
    ground (arith, copy_base-eq n (i + 1) b o (set dst i c) h.1)

skip_base-dotted :
    (b : List ℕ) (o : Option (List ℕ)) → All NotDot b → skip_base (b ++ dotted o) ≡ dotted o
unfolding skip_base
skip_base-dotted [] none h = refl
skip_base-dotted [] (some e) h = refl
skip_base-dotted (c ∷ b) o h = ground (arith, skip_base-dotted b o h.1)

find_ext-dotted : (o : Option (List ℕ)) → find_ext (dotted o) ≡ extension o
unfolding find_ext
find_ext-dotted none = refl
find_ext-dotted (some e) = refl

pub find_ext-cons :
    (c : ℕ) (b : List ℕ) (o : Option (List ℕ))
    → All NotDot (c ∷ b)
    → find_ext ((c ∷ b) ++ dotted o) ≡ dotted o
unfolding find_ext
find_ext-cons c b o h = ground (arith, skip_base-dotted (c ∷ b) o h)

-- The two fields, with the extension still to be found behind the base.
to_dotless_name_fields :
    (b : List ℕ) (o : Option (List ℕ))
    → All NotDot b
    → to_dotless_name (replicate 11 b' ') (b ++ dotted o)
      ≡ pad 8 b ++ pad 3 (find_ext (drop 8 b ++ dotted o))
unfolding to_dotless_name
to_dotless_name_fields b o h =
    let src : List ℕ = find_ext (drop 8 b ++ dotted o) in
    rw (copy_base-eq 8 0 b o (replicate 11 b' ') h, copy_from-pad 8 b (replicate 3 b' '))
      (let e : copy_from 3 (length (pad 8 b)) src (pad 8 b ++ replicate 3 b' ')
            ≡ pad 8 b ++ copy_from 3 0 src (replicate 3 b' ') =
          copy_from-append 3 (pad 8 b) src (replicate 3 b' ') in
        let e' : copy_from 3 8 src (pad 8 b ++ replicate 3 b' ')
            ≡ pad 8 b ++ copy_from 3 0 src (replicate 3 b' ') =
          rw (length-pad 8 b) at e in
        e' ∙ ap (λ t. pad 8 b ++ t) (copy_from-pad 3 src [] ∙ append-nil (pad 3 src)))

-- A name that begins with no dot takes the second branch.
pub to_fat_name_fields :
    (c : ℕ) (b : List ℕ) (o : Option (List ℕ))
    → All NotDot (c ∷ b)
    → to_fat_name ((c ∷ b) ++ dotted o)
      ≡ pad 8 (c ∷ b) ++ pad 3 (find_ext (drop 8 (c ∷ b) ++ dotted o))
unfolding to_fat_name
to_fat_name_fields c b o h = ground (arith, to_dotless_name_fields (c ∷ b) o h)

drop_of_le : (n : ℕ) (b : List ℕ) → length b ≤ n → drop n b ≡ []
drop_of_le zero [] h = refl
drop_of_le zero (x ∷ b) h = absurd (omega arith)
drop_of_le (suc n) [] h = refl
drop_of_le (suc n) (x ∷ b) h = drop_of_le n b (omega arith)

-- A name whose base has 1 to 8 bytes and no dot gives the base and the extension (all that follows
-- the first dot, or nothing), the one cut or space-filled to 8 bytes and the other to 3.
pub to_fat_name_short :
    (c : ℕ) (b : List ℕ) (o : Option (List ℕ))
    → All NotDot (c ∷ b)
    → length (c ∷ b) ≤ 8
    → to_fat_name ((c ∷ b) ++ dotted o) ≡ pad 8 (c ∷ b) ++ pad 3 (extension o)
to_fat_name_short c b o h le =
    to_fat_name_fields c b o h
    ∙ ap (λ t. pad 8 (c ∷ b) ++ pad 3 (find_ext (t ++ dotted o))) (drop_of_le 8 (c ∷ b) le)
    ∙ ap (λ t. pad 8 (c ∷ b) ++ pad 3 t) (find_ext-dotted o)
