-- ===== src/Message/Read.antt =====
-- How a client reads the integers of a packet's body (jhshin_Server/jhshin_Server/PacketStruct.h):
-- the four bytes of an `int` or `unsigned int` in memory, least first.
use jhshin_server.Common.{
  ℕ, ◌+◌, ◌-◌, ◌*◌, ◌<◌, ◌≡◌, ap, ◌∙◌, ◌++◌, List, get_or, ltb, if◌then◌else◌, arith,
}
use jhshin_server.Common.Int.{ℤ, pos, negsuc}
use jhshin_server.Message.{put_u32, put_i32}

unfoldable pub get_u32 : List ℕ → ℕ
get_u32 bytes =
    get_or bytes 0 0
    + 256 * get_or bytes 1 0
    + 65536 * get_or bytes 2 0
    + 16777216 * get_or bytes 3 0

-- Two's complement.
abbrev pub signed : ℕ → ℤ
signed n = if ltb n 2147483648 then pos n else negsuc (4294967295 - n)

unfoldable pub get_i32 : List ℕ → ℤ
unfolding get_u32
get_i32 bytes = signed (get_u32 bytes)

-- An `int` has its values in the range of 32 bits.
abbrev pub InRange : ℤ → Type 0
InRange (pos n) = n < 2147483648
InRange (negsuc n) = n < 2147483648

pub get_u32-put : (n : ℕ) (rest : List ℕ) → n < 4294967296 → get_u32 (put_u32 n ++ rest) ≡ n
unfolding get_u32 put_u32
get_u32-put n rest h = omega arith

signed_negsuc : (n : ℕ) → n < 2147483648 → signed (4294967295 - n) ≡ negsuc n
signed_negsuc n h = ground arith

pub get_i32-put : (z : ℤ) (rest : List ℕ) → InRange z → get_i32 (put_i32 z ++ rest) ≡ z
unfolding get_i32 put_i32
get_i32-put (pos n) rest h = ap signed (get_u32-put n rest (omega arith)) ∙ ground arith
get_i32-put (negsuc n) rest h =
    ap signed (get_u32-put (4294967295 - n) rest (omega arith)) ∙ signed_negsuc n h
