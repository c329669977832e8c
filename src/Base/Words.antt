-- ===== src/Base/Words.antt =====
-- Fixed-width unsigned integers as natural numbers: casts cut bits off, `~` flips them, and the
-- byte orders of include/byteswap.h are lists of bytes.
use Prim.Native.Nat.{ℕ, ◌+◌, ◌-◌, ◌*◌, ◌/◌, ◌%◌, ◌^◌}
use mathlib.Core.List.{List, [], ◌∷◌}
use secure_kernel_loader.Base.Lists.{get_or}

abbrev pub u8 : ℕ → ℕ
u8 n = n % 2 ^ 8

abbrev pub u16 : ℕ → ℕ
u16 n = n % 2 ^ 16

abbrev pub u32 : ℕ → ℕ
u32 n = n % 2 ^ 32

abbrev pub u64 : ℕ → ℕ
u64 n = n % 2 ^ 64

infixl 75 ◌<<<◌ ◌>>>◌
abbrev pub ◌<<<◌ : ℕ → ℕ → ℕ
x <<< k = x * 2 ^ k

abbrev pub ◌>>>◌ : ℕ → ℕ → ℕ
x >>> k = x / 2 ^ k

-- `~x` on 32 and 64 bits.
abbrev pub not32 : ℕ → ℕ
not32 x = 2 ^ 32 - 1 - u32 x

abbrev pub not64 : ℕ → ℕ
not64 x = 2 ^ 64 - 1 - u64 x

-- a - b on 32 and 64 bits: `-` on ℕ stops at 0, so the modulus comes first.
abbrev pub sub32 : ℕ → ℕ → ℕ
sub32 a b = (u32 a + 2 ^ 32 - u32 b) % 2 ^ 32

abbrev pub sub64 : ℕ → ℕ → ℕ
sub64 a b = (u64 a + 2 ^ 64 - u64 b) % 2 ^ 64

-- The bytes of a word in memory, x86 being little endian.
abbrev pub le16 : ℕ → List ℕ
le16 x = u8 x ∷ u8 (x >>> 8) ∷ []

abbrev pub le32 : ℕ → List ℕ
le32 x = u8 x ∷ u8 (x >>> 8) ∷ u8 (x >>> 16) ∷ u8 (x >>> 24) ∷ []

abbrev pub le64 : ℕ → List ℕ
le64 x =
    u8 x
    ∷ u8 (x >>> 8)
    ∷ u8 (x >>> 16)
    ∷ u8 (x >>> 24)
    ∷ u8 (x >>> 32)
    ∷ u8 (x >>> 40)
    ∷ u8 (x >>> 48)
    ∷ u8 (x >>> 56)
    ∷ []

-- The bytes that a word stored through cpu_to_be16, cpu_to_be32 or cpu_to_be64 leaves in memory.
abbrev pub be16 : ℕ → List ℕ
be16 x = u8 (x >>> 8) ∷ u8 x ∷ []

abbrev pub be32 : ℕ → List ℕ
be32 x = u8 (x >>> 24) ∷ u8 (x >>> 16) ∷ u8 (x >>> 8) ∷ u8 x ∷ []

abbrev pub be64 : ℕ → List ℕ
be64 x =
    u8 (x >>> 56)
    ∷ u8 (x >>> 48)
    ∷ u8 (x >>> 40)
    ∷ u8 (x >>> 32)
    ∷ u8 (x >>> 24)
    ∷ u8 (x >>> 16)
    ∷ u8 (x >>> 8)
    ∷ u8 x
    ∷ []

-- The word that be32_to_cpu reads from four bytes at an index.
abbrev pub get_be32 : List ℕ → ℕ → ℕ
get_be32 bs i =
    get_or bs i 0 <<< 24
    + get_or bs (i + 1) 0 <<< 16
    + get_or bs (i + 2) 0 <<< 8
    + get_or bs (i + 3) 0

abbrev pub get_le16 : List ℕ → ℕ → ℕ
get_le16 bs i = get_or bs i 0 + get_or bs (i + 1) 0 <<< 8

abbrev pub get_le32 : List ℕ → ℕ → ℕ
get_le32 bs i =
    get_or bs i 0
    + get_or bs (i + 1) 0 <<< 8
    + get_or bs (i + 2) 0 <<< 16
    + get_or bs (i + 3) 0 <<< 24
