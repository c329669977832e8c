-- ===== src/Sha/Fips/Block256.antt =====
-- The block function of SHA-256 in FIPS 180-4, section 6.2, and that sha256_transform is it.
use secure_kernel_loader.Base.{
  ℕ, zero, suc, ◌+◌, ◌%◌, ◌^◌, ◌≤◌, ◌<◌, ◌≡◌, ap, List, [], ◌∷◌, arith, get_or, set, u32, not32,
  bit_xor, ◌>>>◌,
}
use mathlib.Core.Path.{ap₂}
use secure_kernel_loader.Sha.Fips.Words.{choice_lem, majority_lem}
use secure_kernel_loader.Sha.Sha1.{be_words}
use secure_kernel_loader.Sha.Sha256
use secure_kernel_loader.Sha.Sha256.{
  Regs, line, word_lines, blended_lines, sha256_blend, sha256_transform, ring,
}
use secure_kernel_loader.Sha.Fips.{word, back, rotr, ch, maj}
use secure_kernel_loader.Sha.Fips.Constants.{k_fips}
use secure_kernel_loader.Sha.Fips.Ring.{IsRing, read_back, read_oldest}

big_sigma0 : ℕ → ℕ
big_sigma0 x = bit_xor (bit_xor (rotr 2 x) (rotr 13 x)) (rotr 22 x)

big_sigma1 : ℕ → ℕ
big_sigma1 x = bit_xor (bit_xor (rotr 6 x) (rotr 11 x)) (rotr 25 x)

sigma0 : ℕ → ℕ
sigma0 x = bit_xor (bit_xor (rotr 7 x) (rotr 18 x)) (x >>> 3)

sigma1 : ℕ → ℕ
sigma1 x = bit_xor (bit_xor (rotr 17 x) (rotr 19 x)) (x >>> 10)

-- W(t) from the words before it.
unfoldable pub next256 : List ℕ → ℕ
unfolding sigma0 sigma1
next256 before =
    u32 (sigma1 (back before 2) + back before 7 + sigma0 (back before 15) + back before 16)

-- One round with K(t) and W(t), on the eight working variables.
unfoldable pub round256 : ℕ → ℕ → Regs → Regs
unfolding big_sigma0 big_sigma1
round256 k w r =
    let t1 = r.h + big_sigma1 r.e + ch r.e r.f r.g + k + w in
    let t2 = big_sigma0 r.a + maj r.a r.b r.c in
    record {
      a = u32 (t1 + t2);
      b = r.a;
      c = r.b;
      d = r.c;
      e = u32 (r.d + t1);
      f = r.e;
      g = r.f;
      h = r.g;
    }

-- The n rounds from t on, with the words K.
unfoldable pub rounds256 : List ℕ → (ℕ → ℕ) → ℕ → ℕ → Regs → Regs
rounds256 ks w zero t r = r
rounds256 ks w (suc n) t r = rounds256 ks w n (t + 1) (round256 (get_or ks t 0) (w t) r)

abbrev pub variables : List ℕ → Regs
variables s = record {
  a = get_or s 0 0;
  b = get_or s 1 0;
  c = get_or s 2 0;
  d = get_or s 3 0;
  e = get_or s 4 0;
  f = get_or s 5 0;
  g = get_or s 6 0;
  h = get_or s 7 0;
}

abbrev pub added : List ℕ → Regs → List ℕ
added s r =
    u32 (get_or s 0 0 + r.a)
    ∷ u32 (get_or s 1 0 + r.b)
    ∷ u32 (get_or s 2 0 + r.c)
    ∷ u32 (get_or s 3 0 + r.d)
    ∷ u32 (get_or s 4 0 + r.e)
    ∷ u32 (get_or s 5 0 + r.f)
    ∷ u32 (get_or s 6 0 + r.g)
    ∷ u32 (get_or s 7 0 + r.h)
    ∷ []

-- The next hash value from the one before and a block of 64 bytes.
unfoldable pub block256 : List ℕ → List ℕ → List ℕ
block256 s block =
    added s (rounds256 k_fips (word next256 (be_words 16 0 block) 48) 64 0 (variables s))

-- Where the variables are words of 32 bits, a line of the source is a round.
abbrev pub IsWords : Regs → Type 0
IsWords r =
    (r.a < 2 ^ 32)
    × (r.b < 2 ^ 32)
    × (r.c < 2 ^ 32)
    × (r.d < 2 ^ 32)
    × (r.e < 2 ^ 32)
    × (r.f < 2 ^ 32)
    × (r.g < 2 ^ 32)

abbrev moved : Regs → ℕ → ℕ → Regs
moved r a e = record { a = a; b = r.a; c = r.b; d = r.c; e = e; f = r.e; g = r.f; h = r.g }

sum_a :
    (h s c k w z m : ℕ)
    → u32 (u32 (h + s + c + k + w) + u32 (z + m)) ≡ u32 (h + s + c + k + w + (z + m))
sum_a h s c k w z m = omega arith

sum_e : (d t : ℕ) → u32 (d + u32 t) ≡ u32 (d + t)
sum_e d t = omega arith

choice_word : (x y z : ℕ) → x < 2 ^ 32 → y < 2 ^ 32 → z < 2 ^ 32 → Sha256.ch x y z ≡ ch x y z
unfolding Sha256.ch
choice_word x y z hx hy hz = choice_lem 32 x (not32 x) y z (omega arith) hy hz

majority_word : (x y z : ℕ) → Sha256.maj x y z ≡ maj x y z
unfolding Sha256.maj
majority_word x y z = majority_lem x y z

pub line_lem : (r : Regs) (k w : ℕ) → IsWords r → line r k w ≡ round256 k w r
unfolding line round256 big_sigma0 big_sigma1 Sha256.e0 Sha256.e1 Sha256.ror32
line_lem r k w (ha, hb, hc, hd, he, hf, hg) =
    rw (choice_word r.e r.f r.g he hf hg, majority_word r.a r.b r.c)
      (ap₂ (moved r)
        (sum_a r.h (big_sigma1 r.e) (ch r.e r.f r.g) k w (big_sigma0 r.a) (maj r.a r.b r.c))
        (sum_e r.d (r.h + big_sigma1 r.e + ch r.e r.f r.g + k + w)))

pub round256-IsWords : (r : Regs) (k w : ℕ) → IsWords r → IsWords (round256 k w r)
unfolding round256
round256-IsWords r k w (ha, hb, hc, hd, he, hf, hg) = (omega arith, ha, hb, hc, omega arith, he, hf)

-- The new word of the ring is the next one of the schedule.
pub blend_lem :
    (i : ℕ) (w before : List ℕ)
    → IsRing i w before
    → 16 ≤ i
    → i < 2 ^ 32
    → sha256_blend w i ≡ (set w (i % 16) (next256 before), next256 before)
unfolding sha256_blend next256 sigma0 sigma1 Sha256.s0 Sha256.s1 Sha256.ror32
blend_lem i w before q lo hi =
    rw
      (
        read_oldest i w before q hi,
        read_back i 1 w before q (omega arith) lo hi,
        read_back i 6 w before q (omega arith) lo hi,
        read_back i 14 w before q (omega arith) lo hi,
      )
      (ap (λ (v : ℕ). (set w (i % 16) v, v)) (omega arith))
