-- ===== src/Fat/Card.antt =====
-- What lib/fat/fat.c relies on of the card driver, include/libsys/card.h. The driver is assembly
-- over the SPI port (lib/card.asm) and the card is hardware: they are a parameter.
use ccpu_libsys.Prelude.{ℕ, ◌≡◌, ◌≢◌, ◌==◌, if◌then◌else◌, fun_ext, arith}

-- The bytes of a block from its start, of which the code has CARD_BLOCK_SIZE; what is at higher
-- indices stands for nothing.
abbrev pub Block : Type 0
Block = ℕ → ℕ

abbrev pub card_block_size : ℕ
card_block_size = 512

abbrev pub Disk : Type 0
Disk = ℕ → Block

unfoldable pub update : Disk → ℕ → Block → Disk
update d a b x = if x == a then b else d x

pub update_self : (d : Disk) (a : ℕ) (b : Block) → update d a b a ≡ b
unfolding update
update_self d a b = fun_ext λ i. ground arith

pub update_ne : (d : Disk) (a x : ℕ) (b : Block) → x ≢ a → update d a b x ≡ d x
unfolding update
update_ne d a x b ne = fun_ext λ i. ground arith

-- The driver's functions over the state of driver and card. `read_block a b c` is
-- `card_read_block(a)` with `cache_block` holding `b`: the result, what `cache_block` holds then,
-- and the card. `power_off` is the macro CARD_POWER_OFF.
pub record CardOps (Card : Type 0) : Type 0 where
  pub init : Card → ℕ × Card
  pub read_block : ℕ → Block → Card → ℕ × Block × Card
  pub write_block : ℕ → Block → Card → ℕ × Card
  pub power_off : Card → Card

-- The documented behaviour of the three functions, 0 being CARD_SUCCESS: `view` is what the card
-- stores. A failed write may leave its own block in any state.
pub record CardLaws {Card : Type 0} (ops : CardOps Card) : Type 0 where
  pub view : Card → Disk
  pub init_keeps : (c : Card) → view (ops.init c).1 ≡ view c
  pub read_keeps : (a : ℕ) (b : Block) (c : Card) → view (ops.read_block a b c).2 ≡ view c
  pub read_ok :
      (a : ℕ) (b : Block) (c : Card)
      → (ops.read_block a b c).0 ≡ 0
      → (ops.read_block a b c).1 ≡ view c a
  pub write_ok :
      (a : ℕ) (b : Block) (c : Card)
      → (ops.write_block a b c).0 ≡ 0
      → view (ops.write_block a b c).1 ≡ update (view c) a b
  pub write_other :
      (a : ℕ) (b : Block) (c : Card) (x : ℕ) → x ≢ a → view (ops.write_block a b c).1 x ≡ view c x
  pub power_off_keeps : (c : Card) → view (ops.power_off c) ≡ view c

-- A card on which no transfer fails.
pub record CardWorks {Card : Type 0} (ops : CardOps Card) : Type 0 where
  pub reads : (a : ℕ) (b : Block) (c : Card) → (ops.read_block a b c).0 ≡ 0
  pub writes : (a : ℕ) (b : Block) (c : Card) → (ops.write_block a b c).0 ≡ 0
