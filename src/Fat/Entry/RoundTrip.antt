-- ===== src/Fat/Entry/RoundTrip.antt =====
-- A directory entry copied into a block and out again, and what the copy leaves alone.
use ccpu_libsys.Prelude.{
  ℕ, zero, suc, ◌+◌, ◌/◌, ◌%◌, ◌<◌, ◌≤◌, ◌≡◌, refl, ap, ◌∙◌, ◌⊎◌, inl, List, [], ◌∷◌, ◌++◌, arith,
  length, length-append, get_or, get_or-append,
}
use mathlib.Core.Path.{ap₂}
use ccpu_libsys.Fat.Card.{Block}
use ccpu_libsys.Fat.Bytes.{put_byte, get_u16, get_u32}
use ccpu_libsys.Fat.State.{FatDirEntry}
use ccpu_libsys.Fat.Entry.{
  get_bytes, put_bytes, get_entry, entry_bytes, put_entry, word, double_word,
}

put_bytes-outside :
    (xs : List ℕ) (b : Block) (o i : ℕ) → (i < o) ⊎ (o + length xs ≤ i) → put_bytes xs b o i ≡ b i
unfolding put_bytes
put_bytes-outside [] b o i h = refl
put_bytes-outside (x ∷ xs) b o i h =
    put_bytes-outside xs (put_byte b o x) (o + 1) i (ground arith) ∙ ground arith

put_bytes-inside :
    (xs : List ℕ) (b : Block) (o k : ℕ) → k < length xs → put_bytes xs b o (o + k) ≡ get_or xs k 0
unfolding put_bytes
put_bytes-inside [] b o k h = absurd (omega arith)
put_bytes-inside (x ∷ xs) b o zero h =
    put_bytes-outside xs (put_byte b o x) (o + 1) (o + 0) (inl (omega arith)) ∙ ground arith
put_bytes-inside (x ∷ xs) b o (suc k) h =
    let e : o + suc k ≡ o + 1 + k = omega arith in
    ap (put_bytes xs (put_byte b o x) (o + 1)) e
    ∙ put_bytes-inside xs (put_byte b o x) (o + 1) k (omega arith)

-- The fields fit their types.
pub record IsFatDirEntry (e : FatDirEntry) : Type 0 where
  pub filename : length e.filename ≡ 11
  pub create_time : e.create_time < 65536
  pub create_date : e.create_date < 65536
  pub access_date : e.access_date < 65536
  pub cluster_hi : e.cluster_hi < 65536
  pub modify_time : e.modify_time < 65536
  pub modify_date : e.modify_date < 65536
  pub cluster_lo : e.cluster_lo < 65536
  pub size : e.size < 0x1_0000_0000

get_bytes-eq :
    (xs : List ℕ) (p : Block) (o : ℕ)
    → ((k : ℕ) → k < length xs → p (o + k) ≡ get_or xs k 0)
    → get_bytes (length xs) p o ≡ xs
unfolding get_bytes
get_bytes-eq [] p o h = refl
get_bytes-eq (x ∷ xs) p o h = ap₂ ◌∷◌ (ap p (omega arith) ∙ h 0 (omega arith)) (
    get_bytes-eq xs p (o + 1)
      λ k lt. ap p (let e : o + 1 + k ≡ o + suc k = omega arith in e) ∙ h (suc k) (omega arith))

get_or-append_left :
    (xs ys : List ℕ) (k : ℕ) → k < length xs → get_or (xs ++ ys) k 0 ≡ get_or xs k 0
get_or-append_left [] ys k h = absurd (omega arith)
get_or-append_left (x ∷ xs) ys zero h = refl
get_or-append_left (x ∷ xs) ys (suc k) h = get_or-append_left xs ys k (omega arith)

module _ (name rest : List ℕ) (b : Block) (o : ℕ) (len : length name ≡ 11) where
  abbrev block : Block
  block = put_bytes (name ++ rest) b o

  name_at : get_bytes 11 block o ≡ name
  name_at =
      let bytes : get_bytes (length name) block o ≡ name = get_bytes-eq name block o λ k lt.
        put_bytes-inside (name ++ rest) b o k (omega (arith, length-append {0} name rest))
        ∙ get_or-append_left name rest k lt in
      rw len at bytes

  byte_at : (k : ℕ) → k < length rest → block (o + (11 + k)) ≡ get_or rest k 0
  byte_at k lt =
      let at : block (o + (length name + k)) ≡ get_or rest k 0 =
        put_bytes-inside (name ++ rest) b o (length name + k)
          (omega (arith, length-append {0} name rest))
        ∙ get_or-append name rest k 0 in
      rw len at at

  word_at :
      (k v : ℕ)
      → k + 1 < length rest
      → v < 65536
      → get_or rest k 0 ≡ v % 256
      → get_or rest (k + 1) 0 ≡ v / 256 % 256
      → get_u16 block (o + (11 + k)) ≡ v
  unfolding get_u16
  word_at k v lt fits lo hi =
      let e : o + (11 + k) + 1 ≡ o + (11 + (k + 1)) = omega arith in
      rw (e, byte_at k (omega arith), byte_at (k + 1) lt, lo, hi) (omega arith)

  double_word_at :
      (k v : ℕ)
      → k + 3 < length rest
      → v < 0x1_0000_0000
      → get_or rest k 0 ≡ v % 256
      → get_or rest (k + 1) 0 ≡ v / 256 % 256
      → get_or rest (k + 2) 0 ≡ v / 65536 % 256
      → get_or rest (k + 3) 0 ≡ v / 0x100_0000 % 256
      → get_u32 block (o + (11 + k)) ≡ v
  unfolding get_u32
  double_word_at k v lt fits b0 b1 b2 b3 =
      let e1 : o + (11 + k) + 1 ≡ o + (11 + (k + 1)) = omega arith in
      let e2 : o + (11 + k) + 2 ≡ o + (11 + (k + 2)) = omega arith in
      let e3 : o + (11 + k) + 3 ≡ o + (11 + (k + 3)) = omega arith in
      rw
        (
          e1,
          e2,
          e3,
          byte_at k (omega arith),
          byte_at (k + 1) (omega arith),
          byte_at (k + 2) (omega arith),
          byte_at (k + 3) lt,
          b0,
          b1,
          b2,
          b3,
        )
        (omega arith)

-- The 21 bytes behind the name.
abbrev tail_bytes : FatDirEntry → List ℕ
tail_bytes e =
    e.attrs
    ∷ e.reserved
    ∷ e.create_dsec
    ∷ word e.create_time (
        word e.create_date (
          word e.access_date (
            word e.cluster_hi (
              word e.modify_time
                (word e.modify_date (word e.cluster_lo (double_word e.size [])))))))

-- An entry whose fields fit their types is read back from where it was copied to.
pub get_entry-put_entry :
    (b : Block) (o : ℕ) (e : FatDirEntry) → IsFatDirEntry e → get_entry (put_entry b o e) o ≡ e
unfolding get_entry put_entry entry_bytes
get_entry-put_entry b o e h = λ i. record {
  filename = name_at e.filename (tail_bytes e) b o h.filename i;
  attrs = byte_at e.filename (tail_bytes e) b o h.filename 0 (omega arith) i;
  reserved = byte_at e.filename (tail_bytes e) b o h.filename 1 (omega arith) i;
  create_dsec = byte_at e.filename (tail_bytes e) b o h.filename 2 (omega arith) i;
  create_time =
      word_at e.filename (tail_bytes e) b o h.filename 3 e.create_time (omega arith) h.create_time
        refl refl i;
  create_date =
      word_at e.filename (tail_bytes e) b o h.filename 5 e.create_date (omega arith) h.create_date
        refl refl i;
  access_date =
      word_at e.filename (tail_bytes e) b o h.filename 7 e.access_date (omega arith) h.access_date
        refl refl i;
  cluster_hi =
      word_at e.filename (tail_bytes e) b o h.filename 9 e.cluster_hi (omega arith) h.cluster_hi
        refl refl i;
  modify_time =
      word_at e.filename (tail_bytes e) b o h.filename 11 e.modify_time (omega arith) h.modify_time
        refl refl i;
  modify_date =
      word_at e.filename (tail_bytes e) b o h.filename 13 e.modify_date (omega arith) h.modify_date
        refl refl i;
  cluster_lo =
      word_at e.filename (tail_bytes e) b o h.filename 15 e.cluster_lo (omega arith) h.cluster_lo
        refl refl i;
  size =
      double_word_at e.filename (tail_bytes e) b o h.filename 17 e.size (omega arith) h.size refl
        refl refl refl i;
}

-- The 32 bytes from where it is copied to are all that the copy of such an entry changes.
pub put_entry-outside :
    (b : Block) (o : ℕ) (e : FatDirEntry) (i : ℕ)
    → IsFatDirEntry e
    → (i < o) ⊎ (o + 32 ≤ i)
    → put_entry b o e i ≡ b i
unfolding put_entry entry_bytes
put_entry-outside b o e i h out = put_bytes-outside (e.filename ++ tail_bytes e) b o i (
    let len : length (e.filename ++ tail_bytes e) ≡ 32 =
      omega (arith, length-append {0} e.filename (tail_bytes e), h.filename) in
    ground arith)
