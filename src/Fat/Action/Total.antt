-- ===== src/Fat/Action/Total.antt =====
-- `fat_read` of lib/fat/fat.c returns on every card, and stays in its buffers.
use ccpu_libsys.Prelude.{
  ℕ, zero, suc, ◌+◌, ◌-◌, ◌<◌, ◌≤◌, ◌≡◌, refl, Bool, Option, some, arith, ◌==◌, Bool-cases, inl,
  inr, ◌∙◌, sym, ap, true, false, leb, ltb, ◌&&◌,
}
use ccpu_libsys.Fat.Card.{Block, CardOps}
use ccpu_libsys.Fat.State.{Sys, FileDescriptor, fat_min_last_cluster, cluster_block}
use ccpu_libsys.Fat.Table.{read_fat_entry}
use ccpu_libsys.Fat.Bytes.{u8, u16, u32}
use ccpu_libsys.Fat.Cache.{cache, load_block, set_fat_error}
use ccpu_libsys.Fat.Desc.{get_desc, set_desc, set_error}
use ccpu_libsys.Fat.Seek.{seek_advance, enter_next_cluster}
use mathlib.Core.Path.{subst}
use ccpu_libsys.Fat.Desc.Put.{put_desc_self}
use ccpu_libsys.Fat.Action.{
  at_end, copy, overruns, remainder, block_rest, last_chunk, next_chunk, make_room, transfer,
  action_loop, fat_action, fat_read,
}
use ccpu_libsys.Fat.Action.Loop.{and_false}

pub next_chunk-le :
    (is_write : Bool) (len : ℕ) (p : FileDescriptor) → (next_chunk is_write len p).0 ≤ len
unfolding next_chunk
next_chunk-le is_write len p = ground arith

-- A copy changes its `n` bytes only.
pub copy-outside : (n i j x : ℕ) (dst src : Block) → i + n ≤ x → copy n dst i src j x ≡ dst x
unfolding copy
copy-outside n i j x dst src le = ground arith

-- A descriptor of a file: its index is in the block, and in the last cluster it is not behind the bytes
-- that the cluster has from that block on.
pub record InFile (p : FileDescriptor) : Type 0 where
  pub not_root : p.is_root ≡ false
  pub index : p.index_in_block < 512
  pub in_last : fat_min_last_cluster ≤ p.next_cluster → p.index_in_block ≤ remainder p

at_start : (q : FileDescriptor) → q.is_root ≡ false → q.index_in_block ≡ 0 → InFile q
at_start q root e = record {
  not_root = root;
  index = omega (arith, e);
  in_last = λ le. omega (arith, e);
}

-- The chunk that a read takes stays in the block and, in the last cluster, in the file.
next_chunk_bounds :
    (len : ℕ) (p : FileDescriptor)
    → InFile p
    → let c = next_chunk false len p in
      (c.1 ≡ p)
      × (c.0 ≤ len)
      × (p.index_in_block + c.0 ≤ 512)
      × (fat_min_last_cluster ≤ p.next_cluster
          → remainder p ≤ 512
          → p.index_in_block + c.0 ≤ remainder p)
unfolding next_chunk last_chunk block_rest
next_chunk_bounds len p h =
    elim (Bool-cases (leb fat_min_last_cluster p.next_cluster && leb (remainder p) 512)) [
      | inl last ↦
          let index : p.index_in_block ≤ remainder p = h.in_last (ground (arith, last)) in
          let e : u16 (remainder p + 65536 - p.index_in_block) ≡ remainder p - p.index_in_block =
            ground (arith, last, index) in
          rw (last, e)
            (refl, ground arith, ground (arith, last, index), λ le le2. ground (arith, last, index))
      | inr more ↦
          let e : u16 (512 + 65536 - p.index_in_block) ≡ 512 - p.index_in_block =
            omega (arith, h.index) in
          rw (more, e)
            (
              refl,
              ground arith,
              ground (arith, h.index),
              λ le le2. absurd (ground (arith, more, le, le2)),
            )
    ]

within : (c : ℕ) (p q : FileDescriptor) → q ≡ p → p.index_in_block + c ≤ 512 → overruns c q ≡ false
unfolding overruns
within c p q e le =
    let index : q.index_in_block ≡ p.index_in_block = ap (λ p. p.index_in_block) e in
    ground (arith, index, le)

module _ {Card : Type 0} (ops : CardOps Card) where
  transfer-outside :
      (is_write : Bool) (fd n result x : ℕ) (buf : Block) (s : Sys Card)
      → result + n ≤ x
      → (transfer ops is_write fd n result buf s).1 x ≡ buf x
  unfolding transfer
  transfer-outside is_write fd n result x buf s le = ground (
    arith,
    copy-outside n result (s.file_desc fd).index_in_block x buf
        (cache ops (s.file_desc fd).block_addr s).1.cache_block le,
  )

  transfer-desc :
      (fd n result : ℕ) (buf : Block) (s : Sys Card)
      → (transfer ops false fd n result buf s).2.file_desc fd ≡ s.file_desc fd
  unfolding transfer cache load_block set_fat_error
  transfer-desc fd n result buf s = ground arith

  stored-InFile :
      (fd : ℕ) (b : Bool) (q : FileDescriptor) (t : Sys Card) (r : Bool × Sys Card)
      → r ≡ (b, set_desc fd q t)
      → InFile q
      → InFile (r.1.file_desc fd)
  unfolding set_desc
  stored-InFile fd b q t r e h =
      subst InFile (sym (ap (λ r. r.1.file_desc fd) e ∙ put_desc_self t.file_desc fd q)) h

  -- The same descriptor behind the chunk.
  seek_advance-InFile :
      (fd n : ℕ) (p : FileDescriptor) (s : Sys Card)
      → s.file_desc fd ≡ p
      → InFile p
      → p.index_in_block + n ≤ 512
      → (fat_min_last_cluster ≤ p.next_cluster
          → remainder p ≤ 512
          → p.index_in_block + n ≤ remainder p)
      → InFile ((seek_advance ops fd n s).1.file_desc fd)
  unfolding seek_advance enter_next_cluster remainder
  seek_advance-InFile fd n p s e h in_block in_last =
      let same : u16 (p.index_in_block + n) ≡ p.index_in_block + n = omega (arith, in_block) in
      let run = seek_advance ops fd n s in
      let abs = u32 (p.abs_offset + n) in
      let block = u8 (p.block_in_cluster + 1) in
      let stepped : FileDescriptor = record p {
        index_in_block = 0;
        abs_offset = abs;
        block_in_cluster = block;
      } in
      let next = read_fat_entry ops p.next_cluster s in
      let entered : FileDescriptor = record stepped {
        block_addr = cluster_block s.fat_info p.next_cluster;
        cur_cluster = p.next_cluster;
        next_cluster = next.0;
      } in
      elim (Bool-cases (p.index_in_block + n == 512)) [
        | inr inside ↦
            stored-InFile fd true
              (record p { index_in_block = p.index_in_block + n; abs_offset = abs }) s run
              (rw (e, same, inside) refl)
              (record {
                not_root = h.not_root;
                index = ground (arith, inside, in_block);
                in_last = λ le. ground (arith, inside, in_block, in_last le);
              })
        | inl full ↦ elim (Bool-cases (block == s.fat_info.sectors_per_cluster)) [
          | inr more ↦
              stored-InFile fd true (record stepped { block_addr = u32 (p.block_addr + 1) }) s run
                (rw (e, same, full, more) refl) (at_start _ h.not_root refl)
          | inl end ↦ elim (Bool-cases (ltb p.next_cluster fat_min_last_cluster)) [
            | inr last ↦
                stored-InFile fd true stepped s run (rw (e, same, full, end, h.not_root, last) refl)
                  (at_start _ h.not_root refl)
            | inl follows ↦ elim (Bool-cases (next.0 == 0)) [
              | inl broken ↦
                  stored-InFile fd false entered next.1 run
                    (rw (e, same, full, end, h.not_root, follows, broken) refl)
                    (at_start _ h.not_root refl)
              | inr there ↦
                  stored-InFile fd true (record entered { block_in_cluster = 0 }) next.1 run
                    (rw (e, same, full, end, h.not_root, follows, there) refl)
                    (at_start _ h.not_root refl)
            ]
          ]
        ]
      ]

  -- A run that returns at most `most`, with no byte from there on changed.
  abbrev pub Ends : ℕ → Block → Option (ℕ × Block × Sys Card) → Type 0
  Ends most buf r =
      (n : ℕ) × (buf' : Block) × (s' : Sys Card) × (r ≡ some (n, buf', s'))
      × (n ≤ most)
      × ((x : ℕ) → most ≤ x → buf' x ≡ buf x)

  action_loop-Ends :
      (fd fuel len result : ℕ) (buf : Block) (s : Sys Card)
      → InFile (s.file_desc fd)
      → len < fuel
      → result + len < 65536
      → Ends (result + len) buf (action_loop ops false fd fuel len result buf s)
  unfolding action_loop make_room set_desc
  action_loop-Ends fd zero len result buf s h lt fits = absurd (omega (arith, lt))
  action_loop-Ends fd (suc fuel) len result buf s h lt fits =
      let p = s.file_desc fd in
      let c = (next_chunk false len p).0 in
      let q = (next_chunk false len p).1 in
      let s2 = set_desc fd q s in
      let t = transfer ops false fd c result buf s2 in
      let r4 = seek_advance ops fd c t.2 in
      let (same, le, in_block, in_last) = next_chunk_bounds len p h in
      let at : s2.file_desc fd ≡ p = put_desc_self s.file_desc fd q ∙ same in
      let room : overruns c q ≡ false = within c p q same in_block in
      let at3 : t.2.file_desc fd ≡ p = transfer-desc fd c result buf s2 ∙ at in
      let outside : (x : ℕ) → result + len ≤ x → t.1 x ≡ buf x =
        λ x h. transfer-outside false fd c result x buf s2 (omega (arith, h, le)) in
      elim (Bool-cases (len == 0)) [
        | inl e ↦ (result, buf, s, rw e refl, omega arith, λ x h. refl)
        | inr more ↦ elim (Bool-cases (c == 0)) [
          | inl e ↦ (result, buf, at_end fd s2, rw (more, e) refl, omega arith, λ x h. refl)
          | inr some_left ↦ elim (Bool-cases t.0) [
            | inr e ↦ (
              result,
              t.1,
              t.2,
              rw (more, some_left, room, and_false, e) refl,
              omega arith,
              outside,
            )
            | inl moved ↦ elim (Bool-cases r4.0) [
              | inr e ↦ (
                result,
                t.1,
                r4.1,
                rw (more, some_left, room, and_false, moved, e) refl,
                omega arith,
                outside,
              )
              | inl advanced ↦
                  let h4 : InFile (r4.1.file_desc fd) =
                    seek_advance-InFile fd c p t.2 at3 h in_block in_last in
                  let (n, buf', s', run, most, kept) =
                    action_loop-Ends fd fuel (len - c) (u16 (result + c)) t.1 r4.1 h4
                      (ground (arith, lt, some_left, le)) (omega (arith, fits, le)) in
                  (
                    n,
                    buf',
                    s',
                    rw (more, some_left, room, and_false, moved, advanced) run,
                    omega (arith, most, fits, le),
                    λ x h. kept x (omega (arith, h, fits, le)) ∙ outside x h,
                  )
            ]
          ]
        ]
      ]

  -- Whatever the card does, at every access, for a descriptor that is not the root directory's and
  -- whose index is in the block and, in the last cluster, not behind the bytes that the cluster has:
  -- `fat_read` of fewer than 65536 bytes returns, with a number of bytes that is at most the one asked
  -- for, changes no byte behind the caller's buffer, and never copies from behind `cache_block`, where
  -- the loop would have no result.
  pub fat_read-Ends :
      (fd len : ℕ) (buf : Block) (s : Sys Card)
      → InFile (s.file_desc fd)
      → len < 65536
      → Ends len buf (fat_read ops fd len buf s)
  unfolding fat_read fat_action get_desc set_error
  fat_read-Ends fd len buf s h lt =
      let got = get_desc fd s in
      elim (Bool-cases got.0) [
        | inl ok ↦
            let same : (get_desc fd s).1.file_desc ≡ s.file_desc = ground arith in
            let h2 : InFile (got.1.file_desc fd) = subst (λ u. InFile (u fd)) (sym same) h in
            let (n, buf', s', run, most, kept) =
              action_loop-Ends fd (len + 1) len 0 buf got.1 h2 (omega arith) (omega (arith, lt)) in
            (n, buf', s', rw ok run, omega (arith, most), λ x h. kept x (omega (arith, h)))
        | inr bad ↦ (0, buf, got.1, rw bad refl, omega arith, λ x h. refl)
      ]
