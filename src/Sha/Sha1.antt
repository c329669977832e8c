-- ===== src/Sha/Sha1.antt =====
-- sha1sum.c.
use secure_kernel_loader.Base.{
  ℕ, zero, suc, ◌+◌, ◌-◌, ◌%◌, List, [], ◌∷◌, get_or, set, u32, sub32, get_be32, replicate, bit_and,
  bit_or, bit_xor, ◌<<<◌, ◌>>>◌,
}
use secure_kernel_loader.Sha.Stream.{Context, once, finish, output}

unfoldable pub rol : ℕ → ℕ → ℕ
rol x n = bit_or (u32 (x <<< n)) (x >>> ((32 - n) % 32))

unfoldable pub sha1_init : Context
sha1_init = record {
  h = 0x67452301 ∷ 0xefcdab89 ∷ 0x98badcfe ∷ 0x10325476 ∷ 0xc3d2e1f0 ∷ [];
  count = 0;
  buf = replicate 64 0;
}

-- X(i - k) of sha1_blend is x[(i - k) & 15].
abbrev pub ring : List ℕ → ℕ → ℕ → ℕ
ring x i k = get_or x (sub32 i k % 16) 0

-- The new word, and the ring with it in its place.
unfoldable pub sha1_blend : List ℕ → ℕ → List ℕ × ℕ
unfolding rol
sha1_blend x i =
    let v =
      rol (bit_xor (bit_xor (bit_xor (ring x i 0) (ring x i 14)) (ring x i 8)) (ring x i 3)) 1 in
    (set x (i % 16) v, v)

unfoldable pub f1 : ℕ → ℕ → ℕ → ℕ
f1 x y z = bit_xor z (bit_and x (bit_xor y z))

unfoldable pub f2 : ℕ → ℕ → ℕ → ℕ
f2 x y z = bit_xor (bit_xor x y) z

unfoldable pub f3 : ℕ → ℕ → ℕ → ℕ
f3 x y z = bit_or (bit_and x y) (bit_and z (bit_or x y))

-- The variables a to e.
pub record Regs : Type 0 where
  pub a : ℕ
  pub b : ℕ
  pub c : ℕ
  pub d : ℕ
  pub e : ℕ

-- What the macro R adds up into its fifth argument.
unfoldable pub r_sum : (ℕ → ℕ → ℕ → ℕ) → ℕ → ℕ → ℕ → ℕ → ℕ → ℕ → ℕ → ℕ
unfolding rol
r_sum f k a b c d e m = u32 (e + (rol a 5 + f b c d + k + m))

-- Five uses of R, which rotate the names of the variables once round.
unfoldable pub five : (ℕ → ℕ → ℕ → ℕ) → ℕ → Regs → ℕ → ℕ → ℕ → ℕ → ℕ → Regs
unfolding r_sum
five f k r m0 m1 m2 m3 m4 =
    let e1 = r_sum f k r.a r.b r.c r.d r.e m0 in
    let b1 = rol r.b 30 in
    let d1 = r_sum f k e1 r.a b1 r.c r.d m1 in
    let a1 = rol r.a 30 in
    let c1 = r_sum f k d1 e1 a1 b1 r.c m2 in
    let e2 = rol e1 30 in
    let b2 = r_sum f k c1 d1 e2 a1 b1 m3 in
    let d2 = rol d1 30 in
    let a2 = r_sum f k b2 c1 d2 e2 a1 m4 in
    let c2 = rol c1 30 in record { a = a2; b = b2; c = c2; d = d2; e = e2 }

-- One round of the loop that reads x[i + 0] to x[i + 4].
unfoldable pub five_words : List ℕ → ℕ → Regs → Regs
unfolding five f1
five_words x i r =
    five f1 0x5A827999 r (get_or x i 0) (get_or x (i + 1) 0) (get_or x (i + 2) 0)
      (get_or x (i + 3) 0) (get_or x (i + 4) 0)

-- One round of the loops that use M(i + 0) to M(i + 4).
unfoldable pub five_blended : (ℕ → ℕ → ℕ → ℕ) → ℕ → ℕ → List ℕ × Regs → List ℕ × Regs
unfolding five sha1_blend
five_blended f k i (x, r) =
    let (x0, m0) = sha1_blend x i in
    let (x1, m1) = sha1_blend x0 (i + 1) in
    let (x2, m2) = sha1_blend x1 (i + 2) in
    let (x3, m3) = sha1_blend x2 (i + 3) in
    let (x4, m4) = sha1_blend x3 (i + 4) in (x4, five f k r m0 m1 m2 m3 m4)

-- for ( ; i < end; i += 5 ) with the rounds left.
unfoldable pub blended_loop : ℕ → (ℕ → ℕ → ℕ → ℕ) → ℕ → ℕ → List ℕ × Regs → List ℕ × Regs
unfolding five_blended
blended_loop zero f k i s = s
blended_loop (suc rounds) f k i s = blended_loop rounds f k (i + 5) (five_blended f k i s)

-- The five uses of R from x[15] to M(19).
unfoldable pub five_mixed : List ℕ × Regs → List ℕ × Regs
unfolding five sha1_blend f1
five_mixed (x, r) =
    let (x1, m1) = sha1_blend x 16 in
    let (x2, m2) = sha1_blend x1 17 in
    let (x3, m3) = sha1_blend x2 18 in
    let (x4, m4) = sha1_blend x3 19 in (x4, five f1 0x5A827999 r (get_or x 15 0) m1 m2 m3 m4)

-- x[i] = cpu_to_be32(data[i]) for 16 words.
unfoldable pub be_words : ℕ → ℕ → List ℕ → List ℕ
be_words zero i block = []
be_words (suc n) i block = get_be32 block i ∷ be_words n (i + 4) block

abbrev load_regs : List ℕ → Regs
load_regs h = record {
  a = get_or h 0 0;
  b = get_or h 1 0;
  c = get_or h 2 0;
  d = get_or h 3 0;
  e = get_or h 4 0;
}

abbrev add_regs : List ℕ → Regs → List ℕ
add_regs h r =
    u32 (get_or h 0 0 + r.a)
    ∷ u32 (get_or h 1 0 + r.b)
    ∷ u32 (get_or h 2 0 + r.c)
    ∷ u32 (get_or h 3 0 + r.d)
    ∷ u32 (get_or h 4 0 + r.e)
    ∷ []

unfoldable pub sha1_transform : List ℕ → List ℕ → List ℕ
unfolding five_words five_mixed blended_loop be_words f2 f3
sha1_transform h block =
    let x = be_words 16 0 block in
    let r1 = five_words x 10 (five_words x 5 (five_words x 0 (load_regs h))) in
    let s2 = five_mixed (x, r1) in
    let s3 = blended_loop 4 f2 0x6ED9EBA1 20 s2 in
    let s4 = blended_loop 4 f3 0x8F1BBCDC 40 s3 in
    let s5 = blended_loop 4 f2 0xCA62C1D6 60 s4 in add_regs h s5.1

unfoldable pub sha1sum : List ℕ → ℕ → List ℕ
unfolding sha1_init sha1_transform output finish
sha1sum bytes len = output (finish sha1_transform (once sha1_transform sha1_init bytes len))
