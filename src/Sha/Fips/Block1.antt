-- ===== src/Sha/Fips/Block1.antt =====
-- The block function of SHA-1 in FIPS 180-4, section 6.1, and that sha1_transform is it.
use secure_kernel_loader.Base.{
  ℕ, zero, suc, ◌+◌, ◌%◌, ◌^◌, ◌≤◌, ◌<◌, ◌≡◌, refl, ◌∙◌, sym, ap, List, [], ◌∷◌, arith, get_or, set,
  u32, bit_xor, not32,
}
use secure_kernel_loader.Sha.Fips.Words.{
  choice_lem, majority_lem, bit_xor_assoc, bit_xor_comm, bit_or_lt,
}
use secure_kernel_loader.Sha.Sha1.{Regs, rol, r_sum, f1, f2, f3, five, be_words, sha1_blend}
use secure_kernel_loader.Sha.Fips.{word, back, rotl, ch, maj, parity}
use secure_kernel_loader.Sha.Fips.Ring.{IsRing, read_back, read_oldest}

-- W(t) from the words before it.
unfoldable pub next1 : List ℕ → ℕ
next1 before =
    rotl 1 (
      bit_xor (bit_xor (bit_xor (back before 3) (back before 8)) (back before 14)) (back before 16))

-- One round with the round's function, its K and W(t), on the five working variables.
unfoldable pub round1 : (ℕ → ℕ → ℕ → ℕ) → ℕ → ℕ → Regs → Regs
round1 f k w r =
    let t = u32 (rotl 5 r.a + f r.b r.c r.d + r.e + k + w) in
    record { a = t; b = r.a; c = rotl 30 r.b; d = r.c; e = r.d }

-- The n rounds from t on that have the same function and K.
unfoldable pub rounds1 : (ℕ → ℕ → ℕ → ℕ) → ℕ → (ℕ → ℕ) → ℕ → ℕ → Regs → Regs
rounds1 f k w zero t r = r
rounds1 f k w (suc n) t r = rounds1 f k w n (t + 1) (round1 f k (w t) r)

abbrev pub variables : List ℕ → Regs
variables h = record {
  a = get_or h 0 0;
  b = get_or h 1 0;
  c = get_or h 2 0;
  d = get_or h 3 0;
  e = get_or h 4 0;
}

abbrev pub added : List ℕ → Regs → List ℕ
added h r =
    u32 (get_or h 0 0 + r.a)
    ∷ u32 (get_or h 1 0 + r.b)
    ∷ u32 (get_or h 2 0 + r.c)
    ∷ u32 (get_or h 3 0 + r.d)
    ∷ u32 (get_or h 4 0 + r.e)
    ∷ []

-- The next hash value from the one before and a block of 64 bytes.
unfoldable pub block1 : List ℕ → List ℕ → List ℕ
block1 h block =
    let w = word next1 (be_words 16 0 block) 64 in
    let r1 = rounds1 ch 0x5A827999 w 20 0 (variables h) in
    let r2 = rounds1 parity 0x6ED9EBA1 w 20 20 r1 in
    let r3 = rounds1 maj 0x8F1BBCDC w 20 40 r2 in
    let r4 = rounds1 parity 0xCA62C1D6 w 20 60 r3 in added h r4

-- The macro R with the variables' names moved on.
unfoldable pub step : (ℕ → ℕ → ℕ → ℕ) → ℕ → ℕ → Regs → Regs
step f k m r = record {
  a = r_sum f k r.a r.b r.c r.d r.e m;
  b = r.a;
  c = rol r.b 30;
  d = r.c;
  e = r.d;
}

pub five_steps :
    (f : ℕ → ℕ → ℕ → ℕ) (k m0 m1 m2 m3 m4 : ℕ) (r : Regs)
    → five f k r m0 m1 m2 m3 m4
      ≡ step f k m4 (step f k m3 (step f k m2 (step f k m1 (step f k m0 r))))
unfolding five step
five_steps f k m0 m1 m2 m3 m4 r = refl

abbrev pub IsWords : Regs → Type 0
IsWords r = (r.a < 2 ^ 32) × (r.b < 2 ^ 32) × (r.c < 2 ^ 32) × (r.d < 2 ^ 32) × (r.e < 2 ^ 32)

rotl_lt : (x : ℕ) → x < 2 ^ 32 → rotl 30 x < 2 ^ 32
rotl_lt x h = bit_or_lt 32 _ _ (omega arith) (omega arith)

pub round1-IsWords : (f : ℕ → ℕ → ℕ → ℕ) (k w : ℕ) (r : Regs) → IsWords r → IsWords (round1 f k w r)
unfolding round1
round1-IsWords f k w r (ha, hb, hc, hd, he) = (omega arith, ha, rotl_lt r.b hb, hc, hd)

-- Two functions are the same on words of 32 bits.
abbrev pub IsSame : (ℕ → ℕ → ℕ → ℕ) → (ℕ → ℕ → ℕ → ℕ) → Type 0
IsSame f g = (x y z : ℕ) → x < 2 ^ 32 → y < 2 ^ 32 → z < 2 ^ 32 → f x y z ≡ g x y z

pub f1_same : IsSame f1 ch
unfolding f1
f1_same x y z hx hy hz = choice_lem 32 x (not32 x) y z (omega arith) hy hz

pub f2_same : IsSame f2 parity
unfolding f2
f2_same x y z hx hy hz = refl

pub f3_same : IsSame f3 maj
unfolding f3
f3_same x y z hx hy hz = majority_lem x y z

module _ (f g : ℕ → ℕ → ℕ → ℕ) (same : IsSame f g) (k : ℕ) where
  pub step_lem : (m : ℕ) (r : Regs) → IsWords r → step f k m r ≡ round1 g k m r
  unfolding step round1 r_sum rol
  step_lem m r (ha, hb, hc, hd, he) = rw (same r.b r.c r.d hb hc hd) (
      ap (λ (t : ℕ). record { a = t; b = r.a; c = rotl 30 r.b; d = r.c; e = r.d })
        (sum (rotl 5 r.a) (g r.b r.c r.d) r.e))
    where
      sum : (x y e : ℕ) → u32 (e + (x + y + k + m)) ≡ u32 (x + y + e + k + m)
      sum x y e = omega arith

xor_turned :
    (x y z u : ℕ) → bit_xor (bit_xor (bit_xor x y) z) u ≡ bit_xor (bit_xor (bit_xor u z) y) x
xor_turned x y z u =
    bit_xor_comm (bit_xor (bit_xor x y) z) u
    ∙ (ap (bit_xor u) (bit_xor_comm (bit_xor x y) z)
        ∙ (sym (bit_xor_assoc u z (bit_xor x y))
            ∙ (ap (bit_xor (bit_xor u z)) (bit_xor_comm x y)
                ∙ sym (bit_xor_assoc (bit_xor u z) y x))))

-- The new word of the ring is the next one of the schedule.
pub blend_lem :
    (i : ℕ) (x before : List ℕ)
    → IsRing i x before
    → 16 ≤ i
    → i < 2 ^ 32
    → sha1_blend x i ≡ (set x (i % 16) (next1 before), next1 before)
unfolding sha1_blend next1 rol
blend_lem i x before q lo hi =
    rw
      (
        read_oldest i x before q hi,
        read_back i 13 x before q (omega arith) lo hi,
        read_back i 7 x before q (omega arith) lo hi,
        read_back i 2 x before q (omega arith) lo hi,
      )
      (ap (λ (v : ℕ). (set x (i % 16) v, v))
        (ap (rotl 1) (
          xor_turned (get_or before 15 0) (get_or before 13 0) (get_or before 7 0)
            (get_or before 2 0))))
