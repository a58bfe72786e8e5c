-- ===== src/Console.antt =====
-- Kernel/src/PrimitiveConsole.cpp: the text console. `Pixels` is the frame buffer, `Calls` the
-- console with its cursor; `Terminal` is what the console promises.
pub mod Pixels
pub mod Calls
pub mod Place
pub mod Cursor
pub mod History
pub mod Rounds
pub mod Frame
pub mod Lines
pub mod Terminal
pub mod Looks
pub mod Steps
pub mod Refinement
mod Tests
