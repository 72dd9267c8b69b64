-- ===== src/Ext4/Csum.antt =====
-- The checksums of fs/ext4_csum.c, which build their tables on the first call.
pub mod Table
use obsidian_kernel.Base.{
  ℕ, zero, suc, ◌+◌, ◌*◌, ◌/◌, ◌^◌, ◌==◌, not, List, [], ◌∷◌, if◌then◌else◌, get_or, u16, bit_and,
  bit_xor,
}

-- One round of each inner loop of `build_tables`.
pub crc32c_round : ℕ → ℕ
crc32c_round c = if not (bit_and c 1 == 0) then bit_xor (c / 2) 0x82F63B78 else c / 2

pub crc16_round : ℕ → ℕ
crc16_round r = if not (bit_and r 0x8000 == 0) then u16 (bit_xor (r * 2) 0x1021) else u16 (r * 2)

abbrev pub rounds : ℕ → (ℕ → ℕ) → ℕ → ℕ
rounds zero f c = c
rounds (suc k) f c = rounds k f (f c)

-- The entries of a table from `i` on, `n` of them.
abbrev pub entries : (ℕ → ℕ) → ℕ → ℕ → List ℕ
entries f i zero = []
entries f i (suc n) = f i ∷ entries f (i + 1) n

abbrev pub crc32c_table : List ℕ
crc32c_table = entries (λ i. rounds 8 crc32c_round i) 0 256

abbrev pub crc16_table : List ℕ
crc16_table = entries (λ i. rounds 8 crc16_round (u16 (i * 2 ^ 8))) 0 256

pub crc32c_byte : ℕ → ℕ → ℕ
crc32c_byte crc b = bit_xor (crc / 2 ^ 8) (get_or crc32c_table (bit_and (bit_xor crc b) 0xFF) 0)

pub ext4_crc32c : ℕ → List ℕ → ℕ
ext4_crc32c crc [] = crc
ext4_crc32c crc (b ∷ buf) = ext4_crc32c (crc32c_byte crc b) buf

pub crc16_byte : ℕ → ℕ → ℕ
crc16_byte crc b =
    u16 (bit_xor (get_or crc16_table (bit_and (bit_xor (crc / 2 ^ 8) b) 0xFF) 0) (crc * 2 ^ 8))

pub ext4_crc16 : ℕ → List ℕ → ℕ
ext4_crc16 crc [] = crc
ext4_crc16 crc (b ∷ buf) = ext4_crc16 (crc16_byte crc b) buf
