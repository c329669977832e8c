-- ===== src/Tpm/Front.antt =====
-- tpmlib/tpm.c: the calls that the loader makes of the driver. The pointers of struct tpm_hw_ops are
-- the parameter `ops`; `none` is an operation of the interface that does not return.
pub mod Extend
pub mod Keeps
use secure_kernel_loader.Base.{
  ℕ, ◌+◌, not, ◌||◌, Bool, Option, none, some, List, ◌++◌, ◌==◌, ◌/=◌, ltb, if◌then◌else◌, take,
  le16, le32, bit_and, ◌>>>◌,
}
use secure_kernel_loader.Tpm.Types.{
  Family, tpm12, tpm20, Interface, tpm_tis, tpm_crb, tpm_max_locality, tpm_alg_sha1, tpm_alg_sha256,
  tpm_alg_sha384, tpm_alg_sha512, tpm_alg_sm3_256,
}
use secure_kernel_loader.Tpm.Buff.{alloc_tpmbuff, free_tpmbuff}
use secure_kernel_loader.Tpm.Device.{Ops, Tpm, Errno, success, einval}
use secure_kernel_loader.Tpm.Tpm1.{tpm1_pcr_extend}
use secure_kernel_loader.Tpm.Tpm2.{tpm2_extend_pcr}

-- How many bytes of the digest the switch of tpm_extend_pcr copies.
abbrev pub digest_size : ℕ → Option ℕ
digest_size alg =
    if alg == tpm_alg_sha1
    then some 20
    else if alg == tpm_alg_sha256
    then some 32
    else if alg == tpm_alg_sha384
    then some 48
    else if alg == tpm_alg_sha512
    then some 64
    else if alg == tpm_alg_sm3_256
    then some 32
    else none

module _ {D : Type 0} (ops : Ops D) where
  -- `tis_buff` is the address of the static buffer.
  unfoldable pub tpm_request_locality : ℕ → Tpm D → ℕ → Tpm D × ℕ
  tpm_request_locality tis_buff t l =
      let (d, ret) = ops.request_locality t.device l in
      let granted = record t {
        device = d;
        has_buff = Bool.true;
        buff = alloc_tpmbuff tis_buff t.buff t.intf ret;
      } in
      if ltb ret tpm_max_locality then (granted, ret) else (record t { device = d }, ret)

  -- `none` is the write through a NULL buffer, which free_tpmbuff does not test.
  unfoldable pub tpm_relinquish_locality : Tpm D → Option (Tpm D)
  tpm_relinquish_locality t =
      if t.has_buff
      then some (record t { device = ops.relinquish_locality t.device; buff = free_tpmbuff t.buff })
      else none

  abbrev pub free_tpm : Tpm D → Option (Tpm D)
  free_tpm t = tpm_relinquish_locality t

  -- The branch for each family, once there is a buffer.
  extend_family : Family → Tpm D → ℕ → ℕ → List ℕ → Option (Tpm D × Errno)
  extend_family tpm12 t pcr algo digest =
      let extended = tpm1_pcr_extend ops t pcr (take 20 digest) in
      if algo /= tpm_alg_sha1 then some (t, einval) else extended
  extend_family tpm20 t pcr algo digest = elim (digest_size algo) [
    | none ↦ some (t, einval)
    | some n ↦ tpm2_extend_pcr ops t pcr (le32 1 ++ (le16 algo ++ take n digest))
  ]

  unfoldable pub tpm_extend_pcr : Tpm D → ℕ → ℕ → List ℕ → Option (Tpm D × Errno)
  unfolding extend_family
  tpm_extend_pcr t pcr algo digest =
      let extended = extend_family t.family t pcr algo digest in
      if not t.has_buff then some (t, einval) else extended
