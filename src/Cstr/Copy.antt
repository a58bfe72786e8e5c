-- ===== src/Cstr/Copy.antt =====
-- Kernel/src/string.asm: `strncpy`. The register `al` has the low byte of the destination's address
-- before the first round, so nothing is copied where that is 0.
use waifu_os.Prelude.{ℕ, zero, suc, ◌+◌, ◌%◌, ◌==◌, if◌then◌else◌}
use waifu_os.Cstr.{Buffer, write}

-- The rounds in which `al` is not zero: each copies a character, the zero included.
unfoldable pub strncpy_loop : Buffer → Buffer → (rounds rcx : ℕ) → Buffer
strncpy_loop dest src zero rcx = dest
strncpy_loop dest src (suc rounds) rcx =
    let rest = strncpy_loop (write dest rcx (src rcx)) src rounds (rcx + 1) in
    if src rcx == 0 then write dest rcx 0 else rest

-- `strncpy`: `dest_address` is the address of `dest`.
unfoldable pub strncpy : ℕ → Buffer → Buffer → ℕ → Buffer
strncpy dest_address dest src max =
    if (dest_address % 0x100) == 0 then dest else strncpy_loop dest src max 0
