-- ===== src/Tpm/Tpm1/Command.antt =====
-- The bytes that tpm1_pcr_extend sends, against the layout of TPM_Extend in the TPM 1.2
-- specification.
use mathlib.Core.Path.{subst}
use secure_kernel_loader.Base.{
  ℕ, ◌+◌, ◌^◌, ◌≤◌, ◌<◌, ◌≡◌, refl, true, List, ◌++◌, length, be16, be32, arith,
}
use secure_kernel_loader.Base.Memory.{Memory, load, store, load-store, IsAt, IsAt-other, IsAt-join}
use secure_kernel_loader.Tpm.Buff.{TpmBuff, tpmb_free, tpmb_reserve, tpmb_put}
use secure_kernel_loader.Tpm.Device.{Ops, Tpm}
use secure_kernel_loader.Tpm.Tpm2.{built}
use secure_kernel_loader.Tpm.Tpm1.{build_extend, send_extend, tpm1_pcr_extend}

abbrev pub wire_extend : ℕ → List ℕ → List ℕ
wire_extend pcr digest =
    be16 0x00C1 ++ (be32 (14 + length digest) ++ (be32 0x14 ++ (be32 pcr ++ digest)))

module _ (m : Memory) (a pcr : ℕ) (digest : List ℕ) where
  abbrev k1 : Memory
  k1 = store m a (be16 0x00C1)

  abbrev k2 : Memory
  k2 = store k1 (a + 6) (be32 0x14)

  abbrev k3 : Memory
  k3 = store k2 (a + 10) (be32 pcr)

  abbrev k4 : Memory
  k4 = store k3 (a + 14) digest

  abbrev k5 : Memory
  k5 = store k4 (a + 2) (be32 (14 + length digest))

  tag-IsAt : IsAt k5 a (be16 0x00C1)
  tag-IsAt =
      IsAt-other k4 a (be16 0x00C1) (a + 2) (be32 (14 + length digest))
        (IsAt-other k3 a (be16 0x00C1) (a + 14) digest
          (IsAt-other k2 a (be16 0x00C1) (a + 10) (be32 pcr)
            (IsAt-other k1 a (be16 0x00C1) (a + 6) (be32 0x14) (load-store m a (be16 0x00C1))
              (omega arith))
            (omega arith))
          (omega arith))
        (omega arith)

  code-IsAt : IsAt k5 (a + 6) (be32 0x14)
  code-IsAt =
      IsAt-other k4 (a + 6) (be32 0x14) (a + 2) (be32 (14 + length digest))
        (IsAt-other k3 (a + 6) (be32 0x14) (a + 14) digest
          (IsAt-other k2 (a + 6) (be32 0x14) (a + 10) (be32 pcr) (load-store k1 (a + 6) (be32 0x14))
            (omega arith))
          (omega arith))
        (omega arith)

  pcr-IsAt : IsAt k5 (a + 10) (be32 pcr)
  pcr-IsAt =
      IsAt-other k4 (a + 10) (be32 pcr) (a + 2) (be32 (14 + length digest))
        (IsAt-other k3 (a + 10) (be32 pcr) (a + 14) digest (load-store k2 (a + 10) (be32 pcr))
          (omega arith))
        (omega arith)

  digest-IsAt : IsAt k5 (a + 14) digest
  digest-IsAt =
      IsAt-other k4 (a + 14) digest (a + 2) (be32 (14 + length digest))
        (load-store k3 (a + 14) digest) (omega arith)

  extend-IsAt : IsAt k5 a (wire_extend pcr digest)
  extend-IsAt = IsAt-join k5 a (a + 2) _ _ (omega arith) tag-IsAt (
      IsAt-join k5 (a + 2) (a + 6) _ _ (omega arith)
        (load-store k4 (a + 2) (be32 (14 + length digest)))
        (IsAt-join k5 (a + 6) (a + 10) _ _ (omega arith) code-IsAt
          (IsAt-join k5 (a + 10) (a + 14) _ _ (omega arith) pcr-IsAt digest-IsAt)))

  extend_load : load k5 a (14 + length digest) ≡ wire_extend pcr digest
  extend_load =
      let count : length (wire_extend pcr digest) ≡ 14 + length digest = omega arith in
      subst (λ n. load k5 a n ≡ wire_extend pcr digest) count extend-IsAt

abbrev filled : TpmBuff → TpmBuff
filled b = record b { len = 34; locked = true; body = b.head + 10; tail = b.head + 34 }

build_extend-eq :
    (m : Memory) (b : TpmBuff) (pcr : ℕ) (digest : List ℕ)
    → 0 < b.head
    → 34 ≤ b.truesize
    → b.truesize < 2 ^ 32
    → length digest ≡ 20
    → build_extend m b pcr digest ≡ built (k5 (tpmb_free m b).0 b.head pcr digest) (filled b)
unfolding build_extend tpmb_free tpmb_reserve tpmb_put
build_extend-eq m b pcr digest placed room wide twenty = rw twenty (ground arith)

module _ {D : Type 0} (ops : Ops D) (t : Tpm D) (pcr : ℕ) (digest : List ℕ) where
  -- With a buffer of fewer than 2 ^ 32 bytes that has room for the command, tpm1_pcr_extend of a
  -- digest of 20 bytes hands to the interface exactly the bytes of TPM_Extend in the TPM 1.2
  -- specification, with their number in the header, and its result is what the send and the
  -- receive make of it.
  pub tpm1_pcr_extend-wire :
      t.has_buff ≡ true
      → 0 < t.buff.head
      → 34 ≤ t.buff.truesize
      → t.buff.truesize < 2 ^ 32
      → length digest ≡ 20
      → (m : Memory) × (b : TpmBuff) × (b.head ≡ t.buff.head)
        × (load m b.head b.len ≡ wire_extend pcr digest)
        × (tpm1_pcr_extend ops t pcr digest ≡ send_extend ops t m b)
  unfolding tpm1_pcr_extend
  tpm1_pcr_extend-wire present placed room wide twenty = (
    k5 (tpmb_free t.memory t.buff).0 t.buff.head pcr digest,
    filled t.buff,
    refl,
    (let n : 34 ≡ 14 + length digest = omega arith in
        rw n (extend_load (tpmb_free t.memory t.buff).0 t.buff.head pcr digest)),
    rw (present, build_extend-eq t.memory t.buff pcr digest placed room wide twenty) refl,
  )
