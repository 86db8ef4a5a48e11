-- ===== src/Lib.antt =====
-- ccpu-libsys: the system library of the CCPU computer. This library models its FAT16 file system
-- (lib/fat/fat.c), its 8.3 file names (lib/fat/name.c), its PS/2 keyboard decoder
-- (lib/ps2keyboard.c) and port (lib/ps2.c), its loading of programs (lib/fat/exec.c), its progress
-- bar (lib/fat/progressbar.c) and its Ethernet output (lib/eth.c), and proves what they do.
--
-- The parts and how they interact
--
-- The file system keeps one block of the card in `cache_block`, with its address in
-- `cache_block_addr`. Every function that looks at the card goes through `cache`, which reads a
-- block if it is not the cached one, and `flush_cache`, which writes the cached block. On them
-- stand the functions of the file allocation table, of which the card has two copies, and those
-- of directory entries, descriptors and mounting. The keyboard decoder is apart: it turns the bytes
-- of the PS/2 port into key events and these into characters. So is the Ethernet output, which
-- fills the transmit buffer. `fat_exec_fd` reads a program with the file system's functions into the
-- two parts of the memory, and shows the progress bar, which writes to the display's memory.
--
--   Prelude     tests, conditionals, lists and bounded checks that the parts share
--   Name        lib/fat/name.c: `to_fat_name` and `from_fat_name`
--   Keyboard    lib/ps2keyboard.c and include/libsys/ps2keyboard.h: the tables `scancode`,
--               `scancode_ext`, `ps2_keymap` and `ps2_keymap_shift`, the decoder
--               `ps2_get_key_event_with_code` (get_key_event_with_code), `ps2_wait_key_pressed`
--               (wait_key_pressed) and `ps2_get_ascii` (get_ascii, char_of_event)
--   Fat.Card    what fat.c calls of the card driver, as the parameter `CardOps`
--   Fat.State   the structures of lib/fat/private.h and include/libsys/fat/fat.h, and the variables
--               of fat.c as one record `Sys`
--   Fat.Cache   `set_fat_error`, `cache` and `flush_cache`
--   Fat.Table   `read_fat_entry`, `write_fat_entry`, `alloc_cluster`, `find_parent_cluster` and
--               `free_cluster_chain`
--   Fat.Entry   the 32 bytes of a directory entry
--   Fat.Desc    `fat_init`, `fat_private_get_free_fd`, `get_desc`, `fat_close`, `fat_get_size`,
--               `fat_tell` and `fat_get_dir_entry`
--   Fat.Mount   `fat_mount`
--   Fat.Seek    `fat_private_init_fd`, `fat_private_init_root_dir`, `seek_begin`, `seek_advance`,
--               `fat_seek_end` and `fat_seek`
--   Fat.Truncate `fat_truncate`
--   Fat.Action  `fat_read` and `fat_write` (`fat_action`); the bytes of a chain are in Action/Content
--   Fat.Dir     `fat_private_find_file`, `fat_get_next_dir_entry`, `fat_change_dir`, `fat_open_dir`
--               and `fat_open_file`; the reference search is in Dir/Lookup
--   Fat.Path    lib/fat/path.c: `fat_find_path` and `fat_open_path`
--   Fat.Messages lib/fat/last_error.c: `fat_get_last_error` and `fat_print_last_error`
--   Progressbar lib/fat/progressbar.c: `progressbar_init` and `progressbar_progress`
--   Eth         lib/eth.c: `eth_init` and `eth_transmit`
--   Ps2         lib/ps2.c: `ps2_read`, `send_byte`, `ps2_reset`, `ps2_set_led_mask` and `ps2_set_rate`
--   Exec        lib/fat/exec.c: `fat_exec` and `fat_exec_fd`, with `copy_to_loram` of
--               lib/fat/loload.asm
--   Display     lib/vga.c: `vga_clear`
--
-- How the code is written down
--
-- A function that changes variables takes the state and returns its result with the new state. A
-- part of a C function that stands alone, such as the body of a loop, is a definition of its own.
-- Numbers are natural numbers, with the wrap of an unsigned type written out where the code's
-- arithmetic can reach it; an `int` of the target has 16 bits. Words are little-endian. A block is
-- a function from the index of a byte, and the card's content a function from block addresses to
-- blocks. The table of descriptors is a function from indices, and a pointer into it is its index;
-- a descriptor of 16 or more is outside of the array in the code.
--
-- The card driver (lib/card.asm) is assembly over a port, and the card is hardware. `CardOps` holds
-- its functions, `CardLaws` its documented behaviour (a successful read gives the block that the
-- card stores; a successful write stores the block; a failed one changes at most that block), and
-- `CardWorks` says that no transfer fails. Theorems that need no more than `CardLaws` hold on a card
-- that fails at any time. Fat.Tests fills all three with a card in memory.
--
-- `find_parent_cluster`, `free_cluster_chain`, `fat_seek`, `fat_seek_end`, `fat_truncate` and the
-- search in directories follow links that the card stores, and need not return on a circular
-- table. They are recursive on fuel and give `none` when it runs out; on a chain, which ends and
-- repeats no cluster, more fuel than its clusters is enough, as the theorems show. The search in
-- the root directory and `fat_get_next_dir_entry` go on up to an entry that ends them, and have
-- fuel too. `progressbar_progress` has 81 rounds of fuel for each step, which is enough for a bar
-- of 1 to 255 steps. `fat_read` and `fat_write` have as many rounds as bytes, and one; a round
-- that would copy past the end of `cache_block` has no result. All other loops have a bound in the code, which is the bound of the recursion.
-- `send_byte` waits for the keyboard and has fuel too: `send_byte_lem` counts how much is enough. The
-- first loop of `fat_exec_fd` has 129 rounds, one more than there are pages below 0x8000.
-- `ps2_wait_key_pressed` reads a list of bytes, and gives `none` where it would wait for more.
--
-- Not modelled
--
-- The whole of fat.c and path.c is modelled. The rest of the repository is assembly (card.asm,
-- crc.asm, bitmix.asm, mac.asm, syscall.asm, lorun.asm) and declarations of system calls.
pub mod Prelude
pub mod Name
pub mod Keyboard
pub mod Fat
pub mod Progressbar
pub mod Eth
pub mod Ps2
pub mod Exec
pub mod Display
