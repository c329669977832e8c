-- ===== src/Sha/Fips/Loops256.antt =====
-- The loops of sha256_transform run the rounds of the standard, with the schedule in the ring.
use secure_kernel_loader.Base.{
  ℕ, zero, suc, ◌+◌, ◌%◌, ◌<◌, ◌≡◌, refl, ◌∙◌, sym, ap, List, ◌∷◌, arith, get_or, set,
}
use mathlib.Core.Path.{subst}
use secure_kernel_loader.Sha.Sha1.{be_words}
use secure_kernel_loader.Sha.Sha256.{Regs, k256, line, word_lines, blended_lines, sha256_transform}
use secure_kernel_loader.Sha.Fips.{past, word}
use secure_kernel_loader.Sha.Fips.Constants.{k256_lem}
use secure_kernel_loader.Sha.Fips.Ring.{IsRing, IsRing-set, IsRing-newest, word_first, word_next}
use secure_kernel_loader.Sha.Fips.Block256.{
  next256, round256, rounds256, variables, added, block256, IsWords, line_lem, round256-IsWords,
  blend_lem,
}

-- After the first loop, which runs the rounds of the block's own words, m rounds are left.
module _ (words : List ℕ) (w : ℕ → ℕ) (m : ℕ) where
  word_lines_lem :
      (n i : ℕ) (r : Regs)
      → ((t : ℕ) → t < 16 → w t ≡ get_or words t 0)
      → n + i ≡ 16
      → IsWords r
      → IsWords (word_lines n i words r)
        × (rounds256 k256 w (n + m) i r ≡ rounds256 k256 w m 16 (word_lines n i words r))
  unfolding word_lines rounds256
  word_lines_lem zero i r f h q =
      let none_left : zero + m ≡ m = omega arith in
      let done : i ≡ 16 = omega arith in (q, rw (none_left, done) refl)
  word_lines_lem (suc n) i r f h q =
      let x : ℕ = get_or words i 0 in
      let k : ℕ = get_or k256 i 0 in
      let (q', e) =
        word_lines_lem n (i + 1) (round256 k x r) f (omega arith) (round256-IsWords r k x q) in
      let more : suc n + m ≡ suc (n + m) = omega arith in
      (
        subst (λ (u : Regs). IsWords (word_lines n (i + 1) words u)) (sym (line_lem r k x q)) q',
        rw (more, line_lem r k x q)
            (ap (λ (u : ℕ). rounds256 k256 w (n + m) (i + 1) (round256 k u r)) (f i (omega arith))
              ∙ e),
      )

-- The second loop runs those, with the schedule in the ring.
module _ (words : List ℕ) where
  abbrev w : ℕ → ℕ
  w = word next256 words 48

  blended_lines_lem :
      (n j : ℕ) (x : List ℕ) (r : Regs)
      → n + j ≡ 48
      → IsRing (16 + j) x (past next256 words j)
      → IsWords r
      → blended_lines n (16 + j) x r ≡ rounds256 k256 w n (16 + j) r
  unfolding blended_lines rounds256 past
  blended_lines_lem zero j x r h q g = refl
  blended_lines_lem (suc n) j x r h q g =
      ap (λ (p : List ℕ × ℕ). blended_lines n (16 + j + 1) p.0 (line r k p.1))
        (blend_lem (16 + j) x (past next256 words j) q (omega arith) (omega arith))
      ∙ (ap (blended_lines n (16 + j + 1) new) (
            line_lem r k v g
            ∙ ap (λ (u : ℕ). round256 k u r) (sym (word_next next256 words 48 j (omega arith))))
          ∙ later (16 + j + 1) (16 + suc j) (omega arith) (
              blended_lines_lem n (suc j) new after (omega arith)
                (turned (suc (16 + j)) (16 + suc j) (omega arith)
                  (IsRing-set (16 + j) v x (past next256 words j) q))
                (round256-IsWords r k (w (16 + j)) g)))
    where
      k : ℕ
      k = get_or k256 (16 + j) 0

      v : ℕ
      v = next256 (past next256 words j)

      new : List ℕ
      new = set x ((16 + j) % 16) v

      after : Regs
      after = round256 k (w (16 + j)) r

      later :
          (a b : ℕ)
          → a ≡ b
          → blended_lines n b new after ≡ rounds256 k256 w n b after
          → blended_lines n a new after ≡ rounds256 k256 w n a after
      later a b e p = rw e p

      turned :
          (a b : ℕ)
          → a ≡ b
          → IsRing a new (v ∷ past next256 words j)
          → IsRing b new (v ∷ past next256 words j)
      turned a b e p = rw (sym e) p

-- The transform of the source is the standard's block function.
pub transform256_lem :
    (s block : List ℕ) → IsWords (variables s) → sha256_transform s block ≡ block256 s block
unfolding sha256_transform block256 past be_words
transform256_lem s block q =
    let words : List ℕ = be_words 16 0 block in
    let (q', e) =
      word_lines_lem words (w words) 48 16 0 (variables s) (word_first next256 words 48) refl q in
    ap (added s) (
      blended_lines_lem words 48 0 words (word_lines 16 0 words (variables s)) refl
        (IsRing-newest words refl) q'
      ∙ (sym e ∙ ap (λ (ks : List ℕ). rounds256 ks (w words) 64 0 (variables s)) (sym k256_lem)))

pub block256-IsWords : (s block : List ℕ) → IsWords (variables (block256 s block))
unfolding block256
block256-IsWords s block =
    (omega arith, omega arith, omega arith, omega arith, omega arith, omega arith, omega arith)
