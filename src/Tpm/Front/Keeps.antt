-- ===== src/Tpm/Front/Keeps.antt =====
-- tpm_extend_pcr stays inside the buffer, for both families.
use secure_kernel_loader.Base.{
  ℕ, ◌^◌, ◌≤◌, ◌<◌, ◌≡◌, refl, Option, none, some, List, ◌++◌, arith, if_elim, not, take,
  length-take, le16, le32, ◌/=◌,
}
use secure_kernel_loader.Tpm.Types.{Family, tpm12, tpm20, tpm_alg_sha1}
use secure_kernel_loader.Tpm.Buff.{header_size}
use secure_kernel_loader.Tpm.Buff.Room.{IsHeld}
use secure_kernel_loader.Tpm.Device.{Ops, Tpm, Errno, einval}
use secure_kernel_loader.Tpm.Keeps.{IsContained, Keeps, KeepsResult, KeepsResult-some, Keeps-refl}
use secure_kernel_loader.Tpm.Tpm1.Keeps.{tpm1_pcr_extend-KeepsResult}
use secure_kernel_loader.Tpm.Tpm2.Keeps.{tpm2_extend_pcr-KeepsResult}
use secure_kernel_loader.Tpm.Front.{extend_family, digest_size, tpm_extend_pcr}

module _ {D : Type 0} (ops : Ops D) (h z : ℕ) (wide : z < 2 ^ 32) (room : header_size ≤ z)
    (c : IsContained ops) (t : Tpm D) (pcr algo : ℕ) (digest : List ℕ) (p : IsHeld h z t.buff) where
  unchanged : KeepsResult h z t (some (t, einval))
  unchanged = KeepsResult-some h z t (t, einval) (Keeps-refl h z t p)

  sized :
      (o : Option ℕ)
      → digest_size algo ≡ o
      → KeepsResult h z t (extend_family ops tpm20 t pcr algo digest)
  unfolding extend_family
  sized none e = rw (extend_family, e) unchanged
  sized (some n) e =
      rw (extend_family, e)
        (tpm2_extend_pcr-KeepsResult ops h z wide room t pcr
          (le32 1 ++ (le16 algo ++ take n digest)) p)

  extend_family-KeepsResult :
      (f : Family) → KeepsResult h z t (extend_family ops f t pcr algo digest)
  unfolding extend_family
  extend_family-KeepsResult tpm12 =
      if_elim (KeepsResult h z t) (algo /= tpm_alg_sha1) (some (t, einval)) _ (λ u. unchanged)
        (λ v.
          tpm1_pcr_extend-KeepsResult ops h z wide room c t pcr (take 20 digest)
            (omega (arith, length-take 20 digest)) p)
  extend_family-KeepsResult tpm20 = sized (digest_size algo) refl

  pub tpm_extend_pcr-KeepsResult : KeepsResult h z t (tpm_extend_pcr ops t pcr algo digest)
  unfolding tpm_extend_pcr
  tpm_extend_pcr-KeepsResult =
      if_elim (KeepsResult h z t) (not t.has_buff) (some (t, einval)) _ (λ u. unchanged)
        (λ v. extend_family-KeepsResult t.family)

  -- Whatever the TPM answers, where recv stays inside the buffer and leaves it where it is, and
  -- the buffer has room for a header, a tpm_extend_pcr that returns leaves memory outside the
  -- buffer as it was, and the buffer where it was, with no more bytes in it than it has room for.
  pub tpm_extend_pcr-Keeps :
      (r : Tpm D × Errno) → tpm_extend_pcr ops t pcr algo digest ≡ some r → Keeps h z t r.0
  tpm_extend_pcr-Keeps = tpm_extend_pcr-KeepsResult
