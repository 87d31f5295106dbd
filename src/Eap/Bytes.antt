-- ===== src/Eap/Bytes.antt =====
-- encoding/binary's BigEndian as the codecs use it: a byte is a number below 256.
use ligament_2fa.Prelude.{ℕ, ◌+◌, ◌*◌, ◌/◌, ◌%◌, ◌<◌, ◌≡◌, List, [], ◌∷◌, ◌++◌, arith, get_or}

abbrev pub IsByte : ℕ → Type 0
IsByte b = b < 256

abbrev pub Bytes : Type 0
Bytes = List ℕ

-- `b[i]`; every use stands behind a length test, so the default is never read.
abbrev pub nth : Bytes → ℕ → ℕ
nth b i = get_or b i 0

abbrev pub put_u16 : ℕ → Bytes
put_u16 v = ((v / 256) % 256) ∷ (v % 256) ∷ []

abbrev pub u16 : Bytes → ℕ
u16 b = nth b 0 * 256 + nth b 1

abbrev pub put_u32 : ℕ → Bytes
put_u32 v = ((v / 16777216) % 256) ∷ ((v / 65536) % 256) ∷ ((v / 256) % 256) ∷ (v % 256) ∷ []

abbrev pub u32 : Bytes → ℕ
u32 b = nth b 0 * 16777216 + nth b 1 * 65536 + nth b 2 * 256 + nth b 3

pub u16-put_u16 : (v : ℕ) (rest : Bytes) → v < 65536 → u16 (put_u16 v ++ rest) ≡ v
u16-put_u16 v rest h = omega arith

pub u32-put_u32 : (v : ℕ) (rest : Bytes) → v < 4294967296 → u32 (put_u32 v ++ rest) ≡ v
u32-put_u32 v rest h = omega arith
