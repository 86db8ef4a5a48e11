-- ===== src/Fat/Action/Apart.antt =====
-- The positions of a chain lie at different places on the card, all in the data area.
use ccpu_libsys.Prelude.{
  ℕ, suc, ◌+◌, ◌-◌, ◌*◌, ◌/◌, ◌%◌, ◌^◌, ◌<◌, ◌≤◌, ◌≡◌, ◌≢◌, sym, ap, ◌∙◌, inl, inr, true, List, [],
  ◌∷◌, arith, ltb, ◌==◌, Bool-cases, length,
}
use native.Mathlib.Nat.{mul-le-mul_right}
use ccpu_libsys.Fat.Bytes.{u16, u32}
use ccpu_libsys.Fat.State.{FatInfo, fat_min_last_cluster, cluster_block, invalid_block_addr}
use ccpu_libsys.Fat.Table.Chains.{IsChain, has}
use ccpu_libsys.Fat.Action.Content.{cluster_size, chain_place, DataFits, address-valid}

digits_le : (n a b i j : ℕ) → i < n → a * n + i ≡ b * n + j → b ≤ a
digits_le n a b i j lt e = elim (Bool-cases (ltb a b)) [
  | inr le ↦ ground (arith, le)
  | inl less ↦
      let more : suc a * n ≤ b * n = mul-le-mul_right n (ground (arith, less)) in
      absurd (omega (arith, more, lt, e))
]

-- The quotient and the rest are determined.
digits : (n a b i j : ℕ) → i < n → j < n → a * n + i ≡ b * n + j → (a ≡ b) × (i ≡ j)
digits n a b i j lt lt2 e =
    let same : a ≡ b = omega (arith, digits_le n a b i j lt e, digits_le n b a j i lt2 (sym e)) in
    let e2 : b * n + i ≡ b * n + j = ap (λ a. a * n + i) (sym same) ∙ e in (same, omega (arith, e2))

cluster_block_lem :
    (f : FatInfo) (k j : ℕ)
    → DataFits f
    → j < f.sectors_per_cluster
    → u32 (cluster_block f k + j)
      ≡ f.data_offset + (u16 (k + 65536 - 2) * f.sectors_per_cluster + j)
unfolding cluster_block
cluster_block_lem f k j h lt =
    let c = u16 (k + 65536 - 2) in
    let wide : c * f.sectors_per_cluster ≤ 65535 * f.sectors_per_cluster =
      mul-le-mul_right f.sectors_per_cluster (omega arith) in
    let e : c * 2 ^ f.log_sectors_per_cluster ≡ c * f.sectors_per_cluster =
      ap (λ x. c * x) h.power in
    omega (arith, wide, e, h.below, lt)

-- Blocks of clusters: no two are the same.
blocks_apart :
    (f : FatInfo) (k k2 j j2 : ℕ)
    → DataFits f
    → k < 65536
    → k2 < 65536
    → j < f.sectors_per_cluster
    → j2 < f.sectors_per_cluster
    → u32 (cluster_block f k + j) ≡ u32 (cluster_block f k2 + j2)
    → (k ≡ k2) × (j ≡ j2)
blocks_apart f k k2 j j2 h lt lt2 in1 in2 e =
    let n = f.sectors_per_cluster in
    let sums : u16 (k + 65536 - 2) * n + j ≡ u16 (k2 + 65536 - 2) * n + j2 =
      omega (arith, e, cluster_block_lem f k j h in1, cluster_block_lem f k2 j2 h in2) in
    let (same, same_block) =
      digits n (u16 (k + 65536 - 2)) (u16 (k2 + 65536 - 2)) j j2 in1 in2 sums in
    (omega (arith, same, lt, lt2), same_block)

-- A position of a chain is in a block of one of its clusters.
record InChain (f : FatInfo) (ks : List ℕ) (i : ℕ) : Type 0 where
  cluster : ℕ
  block : ℕ
  member : has cluster ks ≡ true
  inside : block < f.sectors_per_cluster
  place : chain_place f ks i ≡ (u32 (cluster_block f cluster + block), i % 512)

chain_place-first :
    (f : FatInfo) (k i : ℕ) (ks : List ℕ)
    → i < cluster_size f
    → chain_place f (k ∷ ks) i ≡ (u32 (cluster_block f k + i / 512), i % 512)
unfolding chain_place
chain_place-first f k i ks lt = ground (arith, lt)

chain_place-later :
    (f : FatInfo) (k i : ℕ) (ks : List ℕ)
    → cluster_size f ≤ i
    → chain_place f (k ∷ ks) i ≡ chain_place f ks (i - cluster_size f)
unfolding chain_place
chain_place-later f k i ks le = ground (arith, le)

in_chain : (f : FatInfo) (ks : List ℕ) (i : ℕ) → i < cluster_size f * length ks → InChain f ks i
in_chain f [] i lt = absurd (omega (arith, lt))
in_chain f (k ∷ ks) i lt = elim (Bool-cases (ltb i (cluster_size f))) [
  | inl early ↦ record {
    cluster = k;
    block = i / 512;
    member = ground arith;
    inside = ground (arith, early);
    place = chain_place-first f k i ks (ground (arith, early));
  }
  | inr late ↦
      let le : cluster_size f ≤ i = ground (arith, late) in
      let h : InChain f ks (i - cluster_size f) =
        in_chain f ks (i - cluster_size f) (omega (arith, lt, le)) in
      let same : (i - cluster_size f) % 512 ≡ i % 512 = omega (arith, le) in
      record {
        cluster = h.cluster;
        block = h.block;
        member = ground (arith, h.member);
        inside = h.inside;
        place =
            chain_place-later f k i ks le
            ∙ h.place
            ∙ ap (λ x. (u32 (cluster_block f h.cluster + h.block), x)) same;
      }
]

member-lt :
    (f : FatInfo) (t : ℕ → ℕ) (c k : ℕ) (ks : List ℕ)
    → IsChain f t c ks
    → has k ks ≡ true
    → k < fat_min_last_cluster
member-lt f t c k [] h m = absurd (cc m)
member-lt f t c k (x ∷ ks) h m = elim (Bool-cases (k == x)) [
  | inl e ↦ ground (arith, e, h.0, h.1)
  | inr e ↦ member-lt f t (t c) k ks h.5 (ground (arith, e, m))
]

-- A position of the first cluster lies apart from those of the clusters behind it.
first_apart :
    (f : FatInfo) (t : ℕ → ℕ) (c k i j : ℕ) (ks : List ℕ)
    → DataFits f
    → IsChain f t c (k ∷ ks)
    → i < cluster_size f
    → cluster_size f ≤ j
    → j < cluster_size f * length (k ∷ ks)
    → chain_place f (k ∷ ks) i ≢ chain_place f (k ∷ ks) j
first_apart f t c k i j ks fit h early late lt e =
    let m : InChain f ks (j - cluster_size f) =
      in_chain f ks (j - cluster_size f) (omega (arith, lt, late)) in
    let low : m.cluster < fat_min_last_cluster = member-lt f t (t c) m.cluster ks h.5 m.member in
    let address : u32 (cluster_block f k + i / 512) ≡ u32 (cluster_block f m.cluster + m.block) =
      ap (λ a. a.0)
        (sym (chain_place-first f k i ks early) ∙ e ∙ chain_place-later f k j ks late ∙ m.place) in
    let (same, _) =
      blocks_apart f k m.cluster (i / 512) m.block fit (omega (arith, h.0, h.1))
        (omega (arith, low)) (omega (arith, early)) m.inside address in
    cc (same, h.0, h.4, m.member)

-- Different positions of a chain lie at different places.
pub chain_place-injective :
    (f : FatInfo) (t : ℕ → ℕ) (c i j : ℕ) (ks : List ℕ)
    → DataFits f
    → IsChain f t c ks
    → i < cluster_size f * length ks
    → j < cluster_size f * length ks
    → chain_place f ks i ≡ chain_place f ks j
    → i ≡ j
chain_place-injective f t c i j [] fit h lt lt2 e = absurd (omega (arith, lt))
chain_place-injective f t c i j (k ∷ ks) fit h lt lt2 e =
    let n = cluster_size f in
    elim (Bool-cases (ltb i n)) [
      | inl early ↦ elim (Bool-cases (ltb j n)) [
        | inl early2 ↦
            let same =
              sym (chain_place-first f k i ks (ground (arith, early)))
              ∙ e
              ∙ chain_place-first f k j ks (ground (arith, early2)) in
            let low : k < 65536 = omega (arith, h.0, h.1) in
            let (_, block) =
              blocks_apart f k k (i / 512) (j / 512) fit low low (ground (arith, early))
                (ground (arith, early2)) (ap (λ a. a.0) same) in
            omega (arith, block, ap (λ a. a.1) same)
        | inr late ↦
            absurd (
              first_apart f t c k i j ks fit h (ground (arith, early)) (ground (arith, late)) lt2 e)
      ]
      | inr late ↦ elim (Bool-cases (ltb j n)) [
        | inl early2 ↦ absurd (
            first_apart f t c k j i ks fit h (ground (arith, early2)) (ground (arith, late)) lt
              (sym e))
        | inr late2 ↦
            let le : n ≤ i = ground (arith, late) in
            let le2 : n ≤ j = ground (arith, late2) in
            let same =
              chain_place-injective f t (t c) (i - n) (j - n) ks fit h.5 (omega (arith, lt, le))
                (omega (arith, lt2, le2))
                (sym (chain_place-later f k i ks le) ∙ e ∙ chain_place-later f k j ks le2) in
            omega (arith, same, le, le2)
      ]
    ]

-- Every position lies in the data area.
pub chain_place-data :
    (f : FatInfo) (ks : List ℕ) (i : ℕ)
    → DataFits f
    → i < cluster_size f * length ks
    → f.data_offset ≤ (chain_place f ks i).0
chain_place-data f ks i fit lt =
    let h = in_chain f ks i lt in
    let address : (chain_place f ks i).0 ≡ u32 (cluster_block f h.cluster + h.block) =
      ap (λ a. a.0) h.place in
    omega (arith, address, cluster_block_lem f h.cluster h.block fit h.inside)

-- And has an address that a card can have.
pub chain_place-below :
    (f : FatInfo) (ks : List ℕ) (i : ℕ)
    → DataFits f
    → i < cluster_size f * length ks
    → (chain_place f ks i).0 < invalid_block_addr
chain_place-below f ks i fit lt =
    let h = in_chain f ks i lt in
    let address : (chain_place f ks i).0 ≡ u32 (cluster_block f h.cluster + h.block) =
      ap (λ a. a.0) h.place in
    let valid = address-valid f h.cluster h.block fit h.inside in omega (arith, address, valid)
