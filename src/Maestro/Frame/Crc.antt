-- ===== src/Maestro/Frame/Crc.antt =====
-- A checksum of bytes is a `u32`.
use bt_daemon.Base.Words.{bit_xor-lt}
use bt_daemon.Base.Endian.{IsBytes}
use bt_daemon.Maestro.{IsU32}
use bt_daemon.Maestro.Frame.{crc32, crc_bytes, crc_round, crc_rounds}
use bt_daemon.Base.{ℕ, List, arith, suc, zero, ◌∷◌, [], ◌/◌}

crc_round-IsU32 : (crc : ℕ) → IsU32 crc → IsU32 (crc_round crc)
unfolding crc_round
crc_round-IsU32 crc h = ground (arith, bit_xor-lt 32 (crc / 2) 0xedb8_8320)

crc_rounds-IsU32 : (n crc : ℕ) → IsU32 crc → IsU32 (crc_rounds n crc)
unfolding crc_rounds
crc_rounds-IsU32 zero crc h = h
crc_rounds-IsU32 (suc n) crc h = crc_rounds-IsU32 n (crc_round crc) (crc_round-IsU32 crc h)

crc_bytes-IsU32 :
    (bytes : List ℕ) (crc : ℕ) → IsU32 crc → IsBytes bytes → IsU32 (crc_bytes crc bytes)
unfolding crc_bytes
crc_bytes-IsU32 [] crc h k = h
crc_bytes-IsU32 (byte ∷ bytes) crc h (k, ks) =
    crc_bytes-IsU32 bytes _ (crc_rounds-IsU32 8 _ (bit_xor-lt 32 crc byte h (omega arith))) ks

pub crc32-IsU32 : (bytes : List ℕ) → IsBytes bytes → IsU32 (crc32 bytes)
unfolding crc32
crc32-IsU32 bytes h =
    bit_xor-lt 32 _ 0xffff_ffff (crc_bytes-IsU32 bytes 0xffff_ffff (omega arith) h) (omega arith)
