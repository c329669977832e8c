-- ===== src/Sha/Loop.antt =====
-- The loop over whole blocks is a fold, and leaves the rest in the buffer.
use mathlib.Core.Path.{ap₂}
use secure_kernel_loader.Base.{
  ℕ, zero, suc, ◌+◌, ◌-◌, ◌*◌, ◌≤◌, ◌<◌, ◌≡◌, refl, ◌∙◌, List, ◌++◌, arith, leb, true, false,
  length, take, drop, take_all, take-append_left, drop-append_left, length-drop,
}
use secure_kernel_loader.Sha.Stream.{Context, once_loop}
use secure_kernel_loader.Sha.Padding.{fold_blocks}

-- What is left of a message behind q blocks.
unfoldable pub rest : ℕ → List ℕ → List ℕ
rest zero bytes = bytes
rest (suc q) bytes = rest q (drop 64 bytes)

pub rest-length : (q r : ℕ) (bytes : List ℕ) → length bytes ≡ 64 * q + r → length (rest q bytes) ≡ r
unfolding rest
rest-length zero r bytes e = omega arith
rest-length (suc q) r bytes e = rest-length q r (drop 64 bytes) (length-drop 64 bytes ∙ omega arith)

module _ (transform : List ℕ → List ℕ → List ℕ) where
  pub fold_blocks-append :
      (q n : ℕ) (h bytes tail : List ℕ)
      → 64 * q ≤ length bytes
      → fold_blocks transform (q + n) h (bytes ++ tail)
        ≡ fold_blocks transform n (fold_blocks transform q h bytes) (rest q bytes ++ tail)
  unfolding fold_blocks rest
  fold_blocks-append zero n h bytes tail e = let z : zero + n ≡ n = omega arith in rw z
  fold_blocks-append (suc q) n h bytes tail e =
      let z : suc q + n ≡ suc (q + n) = omega arith in
      rw z (
        ap₂ (λ (x y : List ℕ). fold_blocks transform (q + n) (transform h x) y)
          (take-append_left 64 bytes tail (omega arith))
          (drop-append_left 64 bytes tail (omega arith))
        ∙ fold_blocks-append q n (transform h (take 64 bytes)) (drop 64 bytes) tail
            (omega (arith, length-drop 64 bytes)))

  -- The loop folds the whole blocks and leaves the rest in the buffer.
  pub once_loop_lem :
      (fuel q r : ℕ) (c : Context) (bytes : List ℕ)
      → q ≤ fuel
      → r < 64
      → length bytes ≡ 64 * q + r
      → once_loop transform fuel c bytes (64 * q + r)
        ≡ record c { h = fold_blocks transform q c.h bytes; buf = rest q bytes ++ drop r c.buf }
  unfolding once_loop fold_blocks rest
  once_loop_lem zero zero r c bytes f lt e =
      let z : 64 * 0 + r ≡ length bytes = omega arith in
      let y : r ≡ length bytes = omega arith in rw (z, y, take_all bytes) refl
  once_loop_lem zero (suc q) r c bytes f lt e = absurd (omega arith)
  once_loop_lem (suc fuel) zero r c bytes f lt e =
      let z : 64 * 0 + r ≡ length bytes = omega arith in
      let y : r ≡ length bytes = omega arith in
      let small : leb 64 (length bytes) ≡ false = ground arith in
      rw (z, y, small, take_all bytes) refl
  once_loop_lem (suc fuel) (suc q) r c bytes f lt e =
      let more : leb 64 (64 * suc q + r) ≡ true = ground arith in
      let less : 64 * suc q + r - 64 ≡ 64 * q + r = omega arith in
      rw (more, less)
        (once_loop_lem fuel q r (record c { h = transform c.h (take 64 bytes) }) (drop 64 bytes)
          (omega arith) lt (length-drop 64 bytes ∙ omega arith))
