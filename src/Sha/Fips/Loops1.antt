-- ===== src/Sha/Fips/Loops1.antt =====
-- The loops of sha1_transform run the rounds of the standard, with the schedule in the ring.
use mathlib.Core.Path.{subst}
use secure_kernel_loader.Base.{
  ℕ, zero, suc, ◌+◌, ◌*◌, ◌%◌, ◌≤◌, ◌<◌, ◌≡◌, refl, ◌∙◌, sym, ap, List, ◌∷◌, arith, length, get_or,
  set,
}
use secure_kernel_loader.Sha.Sha1.{
  Regs, f1, f2, f3, five, five_words, five_blended, five_mixed, blended_loop, be_words, sha1_blend,
  sha1_transform,
}
use secure_kernel_loader.Sha.Fips.{past, word, ch, maj, parity}
use secure_kernel_loader.Sha.Fips.Ring.{IsRing, IsRing-set, IsRing-newest, word_first, word_next}
use secure_kernel_loader.Sha.Fips.Block1.{
  step_lem, next1, round1, rounds1, variables, added, block1, step, five_steps, IsWords,
  round1-IsWords, IsSame, f1_same, f2_same, f3_same, blend_lem,
}

-- The macro R with a word from the ring.
blend_step : (ℕ → ℕ → ℕ → ℕ) → ℕ → ℕ → List ℕ × Regs → List ℕ × Regs
unfolding step
blend_step f k i s = let (x, m) = sha1_blend s.0 i in (x, step f k m s.1)

-- Before index i = 16 + j the array holds the schedule and the variables are r.
abbrev IsAt : List ℕ → ℕ → ℕ → List ℕ × Regs → Regs → Type 0
IsAt words i j s r = (i ≡ 16 + j) × IsRing i s.0 (past next1 words j) × (s.1 ≡ r) × IsWords r

module _ (words : List ℕ) where
  abbrev w : ℕ → ℕ
  w = word next1 words 64

  module _ (f g : ℕ → ℕ → ℕ → ℕ) (same : IsSame f g) (k : ℕ) where
    blend_step_lem :
        (i j : ℕ) (s : List ℕ × Regs) (r : Regs)
        → j < 64
        → IsAt words i j s r
        → IsAt words (i + 1) (suc j) (blend_step f k i s) (round1 g k (w i) r)
    unfolding blend_step past
    blend_step_lem i j s r h (e, q, t, b) =
        subst (λ (s' : List ℕ × Regs). IsAt words (i + 1) (suc j) s' (round1 g k (w i) r))
          (sym (
            ap (λ (p : List ℕ × ℕ). (p.0, step f k p.1 s.1))
              (blend_lem i s.0 (past next1 words j) q (omega arith) (omega arith))))
          (
            omega arith,
            turned (suc i) (i + 1) (omega arith) (IsRing-set i v s.0 (past next1 words j) q),
            rw t (step_lem f g same k v r b)
                ∙ ap (λ (m : ℕ). round1 g k m r)
                    (sym (word_next next1 words 64 j h) ∙ ap w (sym e)),
            round1-IsWords g k (w i) r b,
          )
      where
        v : ℕ
        v = next1 (past next1 words j)

        turned :
            (a a' : ℕ)
            → a ≡ a'
            → IsRing a (set s.0 (i % 16) v) (v ∷ past next1 words j)
            → IsRing a' (set s.0 (i % 16) v) (v ∷ past next1 words j)
        turned a a' e p = rw (sym e) p

    -- n of them from i on.
    blend_steps : ℕ → ℕ → List ℕ × Regs → List ℕ × Regs
    blend_steps zero i s = s
    blend_steps (suc n) i s = blend_steps n (i + 1) (blend_step f k i s)

    blend_steps_lem :
        (n i j : ℕ) (s : List ℕ × Regs) (r : Regs)
        → n + j ≤ 64
        → IsAt words i j s r
        → IsAt words (i + n) (j + n) (blend_steps n i s) (rounds1 g k w n i r)
    unfolding blend_steps rounds1
    blend_steps_lem zero i j s r h q = moved (i + 0) (j + 0) (omega arith) (omega arith)
      where
        moved : (i' j' : ℕ) → i' ≡ i → j' ≡ j → IsAt words i' j' s r
        moved i' j' e f = rw (e, f) q
    blend_steps_lem (suc n) i j s r h q =
        moved (i + suc n) (j + suc n) (omega arith) (omega arith) (
          blend_steps_lem n (i + 1) (suc j) (blend_step f k i s) (round1 g k (w i) r) (omega arith)
            (blend_step_lem i j s r (omega arith) q))
      where
        moved :
            (i' j' : ℕ)
            → i' ≡ i + 1 + n
            → j' ≡ suc j + n
            → IsAt words
                (i + 1 + n)
                (suc j + n)
                (blend_steps n (i + 1) (blend_step f k i s))
                (rounds1 g k w n (i + 1) (round1 g k (w i) r))
            → IsAt words i' j'
                (blend_steps n (i + 1) (blend_step f k i s))
                (rounds1 g k w n (i + 1) (round1 g k (w i) r))
        moved i' j' e f p = rw (e, f) p

    -- A round of the source's loops is five of them.
    five_blended_lem :
        (n i : ℕ) (s : List ℕ × Regs)
        → blend_steps (suc (suc (suc (suc (suc n))))) i s
          ≡ blend_steps n (i + 5) (five_blended f k i s)
    unfolding five_blended blend_step five step blend_steps
    five_blended_lem n i s =
        let i2 : i + 1 + 1 ≡ i + 2 = omega arith in
        let i3 : i + 2 + 1 ≡ i + 3 = omega arith in
        let i4 : i + 3 + 1 ≡ i + 4 = omega arith in
        let i5 : i + 4 + 1 ≡ i + 5 = omega arith in rw (i2, i3, i4, i5) refl

    blended_loop_lem :
        (n i : ℕ) (s : List ℕ × Regs) → blend_steps (n * 5) i s ≡ blended_loop n f k i s
    unfolding blended_loop blend_steps
    blended_loop_lem zero i s = refl
    blended_loop_lem (suc n) i s =
        let more : suc n * 5 ≡ suc (suc (suc (suc (suc (n * 5))))) = omega arith in
        rw more (five_blended_lem (n * 5) i s ∙ blended_loop_lem n (i + 5) (five_blended f k i s))

    -- Four rounds of a loop of the source run twenty of the standard's.
    blended_loop-IsAt :
        (i j : ℕ) (s : List ℕ × Regs) (r : Regs)
        → 20 + j ≤ 64
        → IsAt words i j s r
        → IsAt words (i + 20) (j + 20) (blended_loop 4 f k i s) (rounds1 g k w 20 i r)
    blended_loop-IsAt i j s r h q =
        subst (λ (s' : List ℕ × Regs). IsAt words (i + 20) (j + 20) s' (rounds1 g k w 20 i r))
          (blended_loop_lem 4 i s) (blend_steps_lem 20 i j s r h q)

    -- The macro R with a word of the block.
    word_steps : ℕ → ℕ → Regs → Regs
    word_steps zero i r = r
    word_steps (suc n) i r = word_steps n (i + 1) (step f k (get_or words i 0) r)

    word_steps_lem :
        (n i : ℕ) (r : Regs)
        → n + i ≤ 16
        → IsWords r
        → (word_steps n i r ≡ rounds1 g k w n i r) × IsWords (rounds1 g k w n i r)
    unfolding word_steps rounds1
    word_steps_lem zero i r h q = (refl, q)
    word_steps_lem (suc n) i r h q =
        let (e, q') =
          word_steps_lem n (i + 1) (round1 g k (w i) r) (omega arith)
            (round1-IsWords g k (w i) r q) in
        (
          ap (word_steps n (i + 1)) (
                ap (λ (m : ℕ). step f k m r) (sym (word_first next1 words 64 i (omega arith)))
                ∙ step_lem f g same k (w i) r q)
              ∙ e,
          q',
        )

  five_words_lem :
      (i : ℕ) (r : Regs) → five_words words i r ≡ word_steps f1 ch f1_same 0x5A827999 5 i r
  unfolding five_words word_steps
  five_words_lem i r =
      let i2 : i + 1 + 1 ≡ i + 2 = omega arith in
      let i3 : i + 2 + 1 ≡ i + 3 = omega arith in
      let i4 : i + 3 + 1 ≡ i + 4 = omega arith in
      rw (i2, i3, i4)
        (five_steps f1 0x5A827999 (get_or words i 0) (get_or words (i + 1) 0)
          (get_or words (i + 2) 0) (get_or words (i + 3) 0) (get_or words (i + 4) 0) r)

  -- The loop on the block's own words.
  fifteen_lem :
      (r : Regs)
      → five_words words 10 (five_words words 5 (five_words words 0 r))
        ≡ word_steps f1 ch f1_same 0x5A827999 15 0 r
  unfolding word_steps
  fifteen_lem r =
      ap (λ (u : Regs). five_words words 10 (five_words words 5 u)) (five_words_lem 0 r)
      ∙ (ap (five_words words 10) (five_words_lem 5 (word_steps f1 ch f1_same 0x5A827999 5 0 r))
          ∙ five_words_lem 10 (word_steps f1 ch f1_same 0x5A827999 10 0 r))

  -- The five lines that go over to the ring.
  mixed_lem :
      (r : Regs)
      → five_mixed (words, r)
        ≡ blend_steps f1 ch f1_same 0x5A827999 4 16
            (words, step f1 0x5A827999 (get_or words 15 0) r)
  unfolding five_mixed five blend_steps blend_step step
  mixed_lem r = refl

  first_lem :
      (r : Regs)
      → five_mixed (words, five_words words 10 (five_words words 5 (five_words words 0 r)))
        ≡ blend_steps f1 ch f1_same 0x5A827999 4 16
            (words, word_steps f1 ch f1_same 0x5A827999 16 0 r)
  unfolding word_steps
  first_lem r =
      ap (λ (u : Regs). five_mixed (words, u)) (fifteen_lem r)
      ∙ mixed_lem (word_steps f1 ch f1_same 0x5A827999 15 0 r)

  -- The first twenty rounds.
  five_mixed-IsAt :
      (r : Regs)
      → length words ≡ 16
      → IsWords r
      → IsAt words 20 4
          (five_mixed (words, five_words words 10 (five_words words 5 (five_words words 0 r))))
          (rounds1 ch 0x5A827999 w 20 0 r)
  unfolding past rounds1
  five_mixed-IsAt r l b =
      let (e, b') = word_steps_lem f1 ch f1_same 0x5A827999 16 0 r (omega arith) b in
      subst (λ (s : List ℕ × Regs). IsAt words 20 4 s (rounds1 ch 0x5A827999 w 20 0 r))
        (sym (first_lem r))
        (blend_steps_lem f1 ch f1_same 0x5A827999 4 16 0
          (words, word_steps f1 ch f1_same 0x5A827999 16 0 r) (rounds1 ch 0x5A827999 w 16 0 r)
          (omega arith) (refl, IsRing-newest words l, e, b'))

-- The transform of the source is the standard's block function.
pub transform1_lem :
    (h block : List ℕ) → IsWords (variables h) → sha1_transform h block ≡ block1 h block
unfolding sha1_transform block1 be_words
transform1_lem h block b =
    let x = be_words 16 0 block in
    let s2 = five_mixed (x, five_words x 10 (five_words x 5 (five_words x 0 (variables h)))) in
    let r1 = rounds1 ch 0x5A827999 (w x) 20 0 (variables h) in
    let r2 = rounds1 parity 0x6ED9EBA1 (w x) 20 20 r1 in
    let r3 = rounds1 maj 0x8F1BBCDC (w x) 20 40 r2 in
    let s3 = blended_loop 4 f2 0x6ED9EBA1 20 s2 in
    let s4 = blended_loop 4 f3 0x8F1BBCDC 40 s3 in
    let at2 = five_mixed-IsAt x (variables h) refl b in
    let at3 = blended_loop-IsAt x f2 parity f2_same 0x6ED9EBA1 20 4 s2 r1 (omega arith) at2 in
    let at4 = blended_loop-IsAt x f3 maj f3_same 0x8F1BBCDC 40 24 s3 r2 (omega arith) at3 in
    let (i, q, e, b') =
      blended_loop-IsAt x f2 parity f2_same 0xCA62C1D6 60 44 s4 r3 (omega arith) at4 in
    ap (added h) e

pub block1-IsWords : (h block : List ℕ) → IsWords (variables (block1 h block))
unfolding block1
block1-IsWords h block = (omega arith, omega arith, omega arith, omega arith, omega arith)
