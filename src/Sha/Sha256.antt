-- ===== src/Sha/Sha256.antt =====
-- sha256.c.
use secure_kernel_loader.Base.{
  ℕ, zero, suc, ◌+◌, ◌-◌, ◌%◌, List, [], ◌∷◌, get_or, set, u32, sub32, replicate, bit_and, bit_or,
  bit_xor, ◌<<<◌, ◌>>>◌,
}
use secure_kernel_loader.Sha.Stream.{Context, once, finish, output}
use secure_kernel_loader.Sha.Sha1.{be_words}

unfoldable pub ror32 : ℕ → ℕ → ℕ
ror32 word shift = bit_or (word >>> shift) (u32 (word <<< (32 - shift)))

unfoldable pub ch : ℕ → ℕ → ℕ → ℕ
ch x y z = bit_xor z (bit_and x (bit_xor y z))

unfoldable pub maj : ℕ → ℕ → ℕ → ℕ
maj x y z = bit_or (bit_and x y) (bit_and z (bit_or x y))

unfoldable pub e0 : ℕ → ℕ
unfolding ror32
e0 x = bit_xor (bit_xor (ror32 x 2) (ror32 x 13)) (ror32 x 22)

unfoldable pub e1 : ℕ → ℕ
unfolding ror32
e1 x = bit_xor (bit_xor (ror32 x 6) (ror32 x 11)) (ror32 x 25)

unfoldable pub s0 : ℕ → ℕ
unfolding ror32
s0 x = bit_xor (bit_xor (ror32 x 7) (ror32 x 18)) (x >>> 3)

unfoldable pub s1 : ℕ → ℕ
unfolding ror32
s1 x = bit_xor (bit_xor (ror32 x 17) (ror32 x 19)) (x >>> 10)

abbrev pub ring : List ℕ → ℕ → ℕ → ℕ
ring w i k = get_or w (sub32 i k % 16) 0

unfoldable pub sha256_blend : List ℕ → ℕ → List ℕ × ℕ
unfolding s0 s1
sha256_blend w i =
    let v = u32 (ring w i 0 + (s1 (ring w i 2) + ring w i 7 + s0 (ring w i 15))) in
    (set w (i % 16) v, v)

abbrev pub k256 : List ℕ
k256 =
    0x428a2f98 ∷ 0x71374491 ∷ 0xb5c0fbcf ∷ 0xe9b5dba5 ∷ 0x3956c25b ∷ 0x59f111f1 ∷ 0x923f82a4
    ∷ 0xab1c5ed5 ∷ 0xd807aa98 ∷ 0x12835b01 ∷ 0x243185be ∷ 0x550c7dc3 ∷ 0x72be5d74 ∷ 0x80deb1fe
    ∷ 0x9bdc06a7 ∷ 0xc19bf174 ∷ 0xe49b69c1 ∷ 0xefbe4786 ∷ 0x0fc19dc6 ∷ 0x240ca1cc ∷ 0x2de92c6f
    ∷ 0x4a7484aa ∷ 0x5cb0a9dc ∷ 0x76f988da ∷ 0x983e5152 ∷ 0xa831c66d ∷ 0xb00327c8 ∷ 0xbf597fc7
    ∷ 0xc6e00bf3 ∷ 0xd5a79147 ∷ 0x06ca6351 ∷ 0x14292967 ∷ 0x27b70a85 ∷ 0x2e1b2138 ∷ 0x4d2c6dfc
    ∷ 0x53380d13 ∷ 0x650a7354 ∷ 0x766a0abb ∷ 0x81c2c92e ∷ 0x92722c85 ∷ 0xa2bfe8a1 ∷ 0xa81a664b
    ∷ 0xc24b8b70 ∷ 0xc76c51a3 ∷ 0xd192e819 ∷ 0xd6990624 ∷ 0xf40e3585 ∷ 0x106aa070 ∷ 0x19a4c116
    ∷ 0x1e376c08 ∷ 0x2748774c ∷ 0x34b0bcb5 ∷ 0x391c0cb3 ∷ 0x4ed8aa4a ∷ 0x5b9cca4f ∷ 0x682e6ff3
    ∷ 0x748f82ee ∷ 0x78a5636f ∷ 0x84c87814 ∷ 0x8cc70208 ∷ 0x90befffa ∷ 0xa4506ceb ∷ 0xbef9a3f7
    ∷ 0xc67178f2 ∷ []

pub record Regs : Type 0 where
  pub a : ℕ
  pub b : ℕ
  pub c : ℕ
  pub d : ℕ
  pub e : ℕ
  pub f : ℕ
  pub g : ℕ
  pub h : ℕ

-- One of the eight lines of a loop's body, which sets its `d` and its `h`; the next line has each
-- variable's name moved on by one, which is what the returned order says.
unfoldable pub line : Regs → ℕ → ℕ → Regs
unfolding e0 e1 ch maj
line r k w =
    let t1 = u32 (r.h + e1 r.e + ch r.e r.f r.g + k + w) in
    let t2 = u32 (e0 r.a + maj r.a r.b r.c) in
    record {
      a = u32 (t1 + t2);
      b = r.a;
      c = r.b;
      d = r.c;
      e = u32 (r.d + t1);
      f = r.e;
      g = r.f;
      h = r.g;
    }

-- for ( i = 0; i < 16; i += 8 ), a line at a time: n lines are left.
unfoldable pub word_lines : ℕ → ℕ → List ℕ → Regs → Regs
unfolding line
word_lines zero i w r = r
word_lines (suc n) i w r = word_lines n (i + 1) w (line r (get_or k256 i 0) (get_or w i 0))

-- for ( ; i < 64; i += 8 ), a line at a time.
unfoldable pub blended_lines : ℕ → ℕ → List ℕ → Regs → Regs
unfolding line sha256_blend
blended_lines zero i w r = r
blended_lines (suc n) i w r =
    let (w', v) = sha256_blend w i in blended_lines n (i + 1) w' (line r (get_or k256 i 0) v)

unfoldable pub sha256_transform : List ℕ → List ℕ → List ℕ
unfolding word_lines blended_lines be_words
sha256_transform s block =
    let w = be_words 16 0 block in
    let start : Regs = record {
      a = get_or s 0 0;
      b = get_or s 1 0;
      c = get_or s 2 0;
      d = get_or s 3 0;
      e = get_or s 4 0;
      f = get_or s 5 0;
      g = get_or s 6 0;
      h = get_or s 7 0;
    } in
    let r = blended_lines 48 16 w (word_lines 16 0 w start) in
    u32 (get_or s 0 0 + r.a)
    ∷ u32 (get_or s 1 0 + r.b)
    ∷ u32 (get_or s 2 0 + r.c)
    ∷ u32 (get_or s 3 0 + r.d)
    ∷ u32 (get_or s 4 0 + r.e)
    ∷ u32 (get_or s 5 0 + r.f)
    ∷ u32 (get_or s 6 0 + r.g)
    ∷ u32 (get_or s 7 0 + r.h)
    ∷ []

unfoldable pub sha256_init : Context
sha256_init = record {
  h =
      0x6a09e667 ∷ 0xbb67ae85 ∷ 0x3c6ef372 ∷ 0xa54ff53a ∷ 0x510e527f ∷ 0x9b05688c ∷ 0x1f83d9ab
      ∷ 0x5be0cd19 ∷ [];
  count = 0;
  buf = replicate 64 0;
}

unfoldable pub sha256sum : List ℕ → ℕ → List ℕ
unfolding sha256_init sha256_transform output finish
sha256sum bytes len = output (finish sha256_transform (once sha256_transform sha256_init bytes len))
