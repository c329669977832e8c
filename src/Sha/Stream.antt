-- ===== src/Sha/Stream.antt =====
-- The part that sha1_once and sha256_once, sha1_final and sha256_final have in common, over the
-- block function: the loop over whole blocks, the rest kept in `buf`, and the padding in `buf`.
use secure_kernel_loader.Base.{
  ℕ, zero, suc, ◌+◌, ◌-◌, ◌%◌, List, [], ◌∷◌, ◌++◌, ltb, leb, if◌then◌else◌, set, take, drop,
  replicate, u64, be32, be64, ◌<<<◌,
}

-- SHA1_CONTEXT and struct sha256_state: chaining words, byte count and buffer.
pub record Context : Type 0 where
  pub h : List ℕ
  pub count : ℕ
  pub buf : List ℕ

-- memset(buf + lo, 0, hi - lo).
abbrev pub clear : List ℕ → ℕ → ℕ → List ℕ
clear buf lo hi = take lo buf ++ (replicate (hi - lo) 0 ++ drop hi buf)

module _ (transform : List ℕ → List ℕ → List ℕ) where
  -- for ( ; len >= 64; data += 64, len -= 64 ), then the memcpy of the rest. The length is fuel
  -- enough, since each round takes 64 from it.
  unfoldable pub once_loop : ℕ → Context → List ℕ → ℕ → Context
  once_loop zero c bytes len = record c { buf = take len bytes ++ drop len c.buf }
  once_loop (suc fuel) c bytes len =
      let rest =
        once_loop fuel (record c { h = transform c.h (take 64 bytes) }) (drop 64 bytes)
          (len - 64) in
      if leb 64 len then rest else record c { buf = take len bytes ++ drop len c.buf }

  abbrev pub once : Context → List ℕ → ℕ → Context
  once c bytes len = once_loop len (record c { count = len }) bytes len

  -- Pad to 56, append the count of bits, and transform.
  unfoldable pub last_block : List ℕ → List ℕ → ℕ → ℕ → List ℕ
  last_block h buf partial count =
      transform h (take 56 (clear buf partial 56) ++ be64 (u64 (count <<< 3)))

  -- Up to the last transform; `count & 0x3f` is the remainder by 64.
  unfoldable pub finish : Context → List ℕ
  unfolding last_block
  finish c =
      let partial = c.count % 64 in
      let marked = set c.buf partial 0x80 in
      let padded = clear marked (partial + 1) 64 in
      if ltb 56 (partial + 1)
      then last_block (transform c.h padded) padded 0 c.count
      else last_block c.h marked (partial + 1) c.count

-- The digest in memory: each word big endian.
unfoldable pub output : List ℕ → List ℕ
output [] = []
output (w ∷ ws) = be32 w ++ output ws
