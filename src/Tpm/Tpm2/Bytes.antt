-- ===== src/Tpm/Tpm2/Bytes.antt =====
-- The stores that build TPM2_PCR_Extend leave its bytes in memory.
use secure_kernel_loader.Base.{
  ◌≡◌, ℕ, ◌+◌, ◌≤◌, ◌⊎◌, inr, List, length, be16, be32, arith, replicate,
}
use mathlib.Core.Path.{subst}
use secure_kernel_loader.Base.Memory.{
  Memory, load, store, load-store, IsAt, IsAt-other, IsAt-append, IsAt-join, memset-eq-store,
  store-append,
}
use secure_kernel_loader.Tpm.Tpm2.{tpm2_null_auth}
use secure_kernel_loader.Tpm.Tpm2.Wire.{wire_digests, wire_command, wire_auth}

-- The null authorisation, as the two writes of tpm2_null_auth leave it.
null_auth-IsAt : (m : Memory) (a : ℕ) → IsAt (tpm2_null_auth m a) a wire_auth
null_auth-IsAt m a =
    let zeros = replicate 4 0 in
    let under = store m a zeros in
    rw (memset-eq-store m a 0 9, store-append m a (replicate 4 0) (replicate 5 0))
      (IsAt-append _ a (be32 0x40000009) (replicate 5 0)
        (load-store (store (store m a (replicate 4 0)) (a + 4) (replicate 5 0)) a (be32 0x40000009))
        (IsAt-other (store (store m a (replicate 4 0)) (a + 4) (replicate 5 0)) (a + 4)
          (replicate 5 0) a (be32 0x40000009)
          (load-store (store m a (replicate 4 0)) (a + 4) (replicate 5 0)) (inr (omega arith))))

-- The stores, in their order, leave the command of the specification at `a`.
module _ (m : Memory) (a pcr alg : ℕ) (digest : List ℕ) where
  abbrev k1 : Memory
  k1 = store m a (be16 0x8002)

  abbrev k2 : Memory
  k2 = store k1 (a + 6) (be32 0x182)

  abbrev k3 : Memory
  k3 = store k2 (a + 10) (be32 pcr)

  abbrev k5 : Memory
  k5 = tpm2_null_auth k3 (a + 18)

  abbrev k6 : Memory
  k6 = store k5 (a + 14) (be32 9)

  abbrev k7 : Memory
  k7 = store k6 (a + 27) (wire_digests alg digest)

  abbrev k8 : Memory
  k8 = store k7 (a + 2) (be32 (33 + length digest))

  null_auth-other :
      (k : Memory) (c x : ℕ) (bs : List ℕ)
      → IsAt k x bs
      → (x + length bs ≤ c) ⊎ (c + 9 ≤ x)
      → IsAt (tpm2_null_auth k c) x bs
  null_auth-other k c x bs h o = rw (memset-eq-store k c 0 9) (
      IsAt-other (store k c (replicate 9 0)) x bs c (be32 0x40000009)
        (IsAt-other k x bs c (replicate 9 0) h o) (omega arith))

  -- What the first three stores leave is not touched by the later ones.
  late :
      (x : ℕ) (bs : List ℕ)
      → IsAt k3 x bs
      → (x + length bs ≤ a + 2) ⊎ ((a + 6 ≤ x) × (x + length bs ≤ a + 14))
      → IsAt k8 x bs
  late x bs h o =
      IsAt-other k7 x bs (a + 2) (be32 (33 + length digest))
        (IsAt-other k6 x bs (a + 27) (wire_digests alg digest)
          (IsAt-other k5 x bs (a + 14) (be32 9) (null_auth-other k3 (a + 18) x bs h (omega arith))
            (omega arith))
          (omega arith))
        (omega arith)

  names-IsAt : IsAt k8 a (be16 0x8002) × IsAt k8 (a + 6) (be32 0x182) × IsAt k8 (a + 10) (be32 pcr)
  names-IsAt = (
    late a (be16 0x8002)
        (IsAt-other k2 a (be16 0x8002) (a + 10) (be32 pcr)
          (IsAt-other k1 a (be16 0x8002) (a + 6) (be32 0x182) (load-store m a (be16 0x8002))
            (omega arith))
          (omega arith))
        (omega arith),
    late (a + 6) (be32 0x182)
        (IsAt-other k2 (a + 6) (be32 0x182) (a + 10) (be32 pcr) (load-store k1 (a + 6) (be32 0x182))
          (omega arith))
        (omega arith),
    late (a + 10) (be32 pcr) (load-store k2 (a + 10) (be32 pcr)) (omega arith),
  )

  auth-IsAt :
      IsAt k8 (a + 14) (be32 9)
      × IsAt k8 (a + 18) wire_auth
      × IsAt k8 (a + 27) (wire_digests alg digest)
  auth-IsAt = (
    IsAt-other k7 (a + 14) (be32 9) (a + 2) (be32 (33 + length digest))
        (IsAt-other k6 (a + 14) (be32 9) (a + 27) (wire_digests alg digest)
          (load-store k5 (a + 14) (be32 9)) (omega arith))
        (omega arith),
    IsAt-other k7 (a + 18) wire_auth (a + 2) (be32 (33 + length digest))
        (IsAt-other k6 (a + 18) wire_auth (a + 27) (wire_digests alg digest)
          (IsAt-other k5 (a + 18) wire_auth (a + 14) (be32 9) (null_auth-IsAt k3 (a + 18))
            (omega arith))
          (omega arith))
        (omega arith),
    IsAt-other k7 (a + 27) (wire_digests alg digest) (a + 2) (be32 (33 + length digest))
        (load-store k6 (a + 27) (wire_digests alg digest)) (omega arith),
  )

  wire-IsAt : IsAt k8 a (wire_command pcr alg digest)
  wire-IsAt = IsAt-join k8 a (a + 2) _ _ (omega arith) names-IsAt.0 (
      IsAt-join k8 (a + 2) (a + 6) _ _ (omega arith)
        (load-store k7 (a + 2) (be32 (33 + length digest)))
        (IsAt-join k8 (a + 6) (a + 10) _ _ (omega arith) names-IsAt.1 (
          IsAt-join k8 (a + 10) (a + 14) _ _ (omega arith) names-IsAt.2 (
            IsAt-join k8 (a + 14) (a + 18) _ _ (omega arith) auth-IsAt.0
              (IsAt-join k8 (a + 18) (a + 27) _ _ (omega arith) auth-IsAt.1 auth-IsAt.2)))))

  pub wire_load : load k8 a (33 + length digest) ≡ wire_command pcr alg digest
  wire_load =
      let count : length (wire_command pcr alg digest) ≡ 33 + length digest = omega arith in
      subst (λ n. load k8 a n ≡ wire_command pcr alg digest) count wire-IsAt
