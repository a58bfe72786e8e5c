-- ===== src/Keyboard.antt =====
-- Kernel/src/IO/Keyboard.cpp: the keyboard. `Events` is the handler of its interrupts, `Commands`
-- what is sent to it; `Board` says what is typed.
pub mod Tables
pub mod Events
pub mod Commands
pub mod Layout
pub mod Board
pub mod Follows
pub mod Presses
pub mod Typing
mod Tests
