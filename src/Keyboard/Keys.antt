-- ===== src/Keyboard/Keys.antt =====
-- The key codes of include/libsys/ps2keyboard.h: a key event is one of them, with bit 7 set if the
-- key was released; 0 is no event.
mod Printing
mod Control
pub use Printing.*
pub use Control.*
