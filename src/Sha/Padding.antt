-- ===== src/Sha/Padding.antt =====
-- The definition of FIPS 180 that the digest loops are compared with: the message is padded to whole
-- blocks with one bit, zeros and its length in bits, and the block function is folded over the blocks.
use secure_kernel_loader.Base.{
  ℕ, zero, suc, ◌-◌, ◌*◌, ◌%◌, List, ◌∷◌, ◌++◌, take, drop, replicate, u64, be64,
}

-- What the padding appends to a message of `len` bytes.
abbrev pub padding : ℕ → List ℕ
padding len = (0x80 ∷ replicate ((119 - len % 64) % 64) 0) ++ be64 (u64 (len * 8))

module _ (transform : List ℕ → List ℕ → List ℕ) where
  -- The block function folded over n blocks of 64 bytes.
  unfoldable pub fold_blocks : ℕ → List ℕ → List ℕ → List ℕ
  fold_blocks zero h bytes = h
  fold_blocks (suc n) h bytes = fold_blocks n (transform h (take 64 bytes)) (drop 64 bytes)
