-- ===== src/Sha/Digest.antt =====
-- sha1sum and sha256sum compute the digests of FIPS 180-4.
use secure_kernel_loader.Base.{
  ℕ, ◌+◌, ◌*◌, ◌/◌, ◌%◌, ◌≤◌, ◌<◌, ◌≡◌, refl, sym, ◌∙◌, ap, List, ◌++◌, arith, length, take, drop,
  zero, suc, ◌⊎◌, inl, inr,
}
use secure_kernel_loader.Sha.Stream.{Context, once_loop, once, finish}
use secure_kernel_loader.Sha.Padding.{padding, fold_blocks}
use secure_kernel_loader.Sha.Loop.{rest, rest-length, fold_blocks-append, once_loop_lem}
use secure_kernel_loader.Sha.Finish.{split_at, finish_short, finish_long}
use secure_kernel_loader.Sha.Stream.{output}
use secure_kernel_loader.Sha.Fips.Constants.{h1_fips, h256_fips, sha1_init_lem, sha256_init_lem}
use secure_kernel_loader.Sha.Fips.Block1
use secure_kernel_loader.Sha.Fips.Block1.{block1}
use secure_kernel_loader.Sha.Fips.Loops1.{transform1_lem, block1-IsWords}
use secure_kernel_loader.Sha.Fips.Block256
use secure_kernel_loader.Sha.Fips.Block256.{block256}
use secure_kernel_loader.Sha.Fips.Loops256.{transform256_lem, block256-IsWords}
use secure_kernel_loader.Sha.Sha1.{sha1sum, sha1_init, sha1_transform}
use secure_kernel_loader.Sha.Sha256.{sha256sum, sha256_init, sha256_transform}

module _ (transform : List ℕ → List ℕ → List ℕ) where
  finished :
      (h : List ℕ) (len q r : ℕ) (bytes done buf : List ℕ)
      → len % 64 ≡ r
      → length done ≡ r
      → length buf ≡ 64
      → (n : ℕ) × (n ≡ (r + 72) / 64)
        × (finish transform (record { h = h; count = len; buf = done ++ drop r buf })
            ≡ fold_blocks transform n h (done ++ padding len))
  finished h len q r bytes done buf e d b =
      let (y, ys, s, l) = split_at r buf (omega arith) in
      elim (short_or_long r) [
        | inl lt ↦
            (1, omega arith, rw s (finish_short transform h len r e done ys y d (omega arith) lt))
        | inr ge ↦
            (2, omega arith, rw s (finish_long transform h len r e done ys y d (omega arith) ge))
      ]
    where
      short_or_long : (r : ℕ) → (r < 56) ⊎ (56 ≤ r)
      short_or_long r = omega arith

  -- The loop and the end together fold the block function over the padded message.
  sum_lem :
      (c : Context) (bytes : List ℕ) (len : ℕ)
      → length bytes ≡ len
      → length c.buf ≡ 64
      → finish transform (once transform c bytes len)
        ≡ fold_blocks transform ((len + 72) / 64) c.h (bytes ++ padding len)
  sum_lem c bytes len e b =
      let (n, count, f) =
        finished (fold_blocks transform q c.h bytes) len q r bytes (rest q bytes) c.buf refl
          (rest-length q r bytes (omega arith)) b in
      let blocks : (len + 72) / 64 ≡ q + n = omega (arith, count) in
      ap (finish transform) (
        ap (λ (k : ℕ). once_loop transform len (record c { count = len }) bytes k) whole
        ∙ once_loop_lem transform len q r (record c { count = len }) bytes (omega arith)
            (omega arith) (omega arith))
      ∙ (f
          ∙ rw blocks
              (sym (fold_blocks-append transform q n c.h bytes (padding len) (omega arith))))
    where
      q : ℕ
      q = len / 64

      r : ℕ
      r = len % 64

      whole : len ≡ 64 * q + r
      whole = omega arith

-- sha1sum of a message and its length is the big endian output of sha1_transform folded over the
-- message padded as in FIPS 180.
sha1sum-fold_blocks :
    (bytes : List ℕ) (len : ℕ)
    → length bytes ≡ len
    → sha1sum bytes len
      ≡ output (fold_blocks sha1_transform ((len + 72) / 64) sha1_init.h (bytes ++ padding len))
unfolding sha1sum
sha1sum-fold_blocks bytes len e = ap output (sum_lem sha1_transform sha1_init bytes len e refl)

-- sha256sum of a message and its length is the big endian output of sha256_transform folded over
-- the message padded as in FIPS 180.
sha256sum-fold_blocks :
    (bytes : List ℕ) (len : ℕ)
    → length bytes ≡ len
    → sha256sum bytes len
      ≡ output (fold_blocks sha256_transform ((len + 72) / 64) sha256_init.h (bytes ++ padding len))
unfolding sha256sum
sha256sum-fold_blocks bytes len e =
    ap output (sum_lem sha256_transform sha256_init bytes len e refl)

-- Two block functions that agree on hash values with P have the same fold.
module _ (f g : List ℕ → List ℕ → List ℕ) (P : List ℕ → Type 0)
    (same : (h block : List ℕ) → P h → f h block ≡ g h block)
    (kept : (h block : List ℕ) → P (g h block)) where
  fold_blocks-same :
      (n : ℕ) (h bytes : List ℕ) → P h → fold_blocks f n h bytes ≡ fold_blocks g n h bytes
  unfolding fold_blocks
  fold_blocks-same zero h bytes p = refl
  fold_blocks-same (suc n) h bytes p =
      ap (λ (x : List ℕ). fold_blocks f n x (drop 64 bytes)) (same h (take 64 bytes) p)
      ∙ fold_blocks-same n (g h (take 64 bytes)) (drop 64 bytes) (kept h (take 64 bytes))

-- The digest of FIPS 180-4 over its block function and initial hash value: the message is padded,
-- the block function is folded over its blocks, and the words come out big endian.
unfoldable pub fips_digest : (List ℕ → List ℕ → List ℕ) → List ℕ → List ℕ → List ℕ
fips_digest block h0 bytes =
    output (fold_blocks block ((length bytes + 72) / 64) h0 (bytes ++ padding (length bytes)))

-- sha1sum of a message and its length is the SHA-1 digest of FIPS 180-4: the padded message
-- folded, from the standard's initial hash value on, with the standard's block function, with its
-- schedule of words, its constants, its functions and its rounds.
pub sha1sum-fips_digest :
    (bytes : List ℕ) (len : ℕ)
    → length bytes ≡ len
    → sha1sum bytes len ≡ fips_digest block1 h1_fips bytes
unfolding fips_digest sha1_init
sha1sum-fips_digest bytes len e =
    sha1sum-fold_blocks bytes len e
    ∙ rw (sym e, sha1_init_lem)
        (ap output (
          fold_blocks-same sha1_transform block1 (λ h. Block1.IsWords (Block1.variables h))
            transform1_lem block1-IsWords ((length bytes + 72) / 64) sha1_init.h
            (bytes ++ padding (length bytes))
            (omega arith, omega arith, omega arith, omega arith, omega arith)))

-- sha256sum of a message and its length is the SHA-256 digest of FIPS 180-4: the padded message
-- folded with the standard's block function, with its schedule of words, its functions and its
-- rounds; the initial hash value and the constants K are computed as the standard defines them,
-- from the square and cube roots of the first primes.
pub sha256sum-fips_digest :
    (bytes : List ℕ) (len : ℕ)
    → length bytes ≡ len
    → sha256sum bytes len ≡ fips_digest block256 h256_fips bytes
unfolding fips_digest sha256_init
sha256sum-fips_digest bytes len e =
    sha256sum-fold_blocks bytes len e
    ∙ rw (sym e, sha256_init_lem)
        (ap output (
          fold_blocks-same sha256_transform block256 (λ h. Block256.IsWords (Block256.variables h))
            transform256_lem block256-IsWords ((length bytes + 72) / 64) sha256_init.h
            (bytes ++ padding (length bytes))
            (
              omega arith,
              omega arith,
              omega arith,
              omega arith,
              omega arith,
              omega arith,
              omega arith,
            )))
