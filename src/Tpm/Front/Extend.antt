-- ===== src/Tpm/Front/Extend.antt =====
-- What tpm_extend_pcr sends for each algorithm that the loader can be asked for.
use secure_kernel_loader.Base.{
  ℕ, ◌+◌, ◌^◌, ◌≤◌, ◌<◌, ◌≡◌, refl, true, Option, some, List, length, take_all, Bool, not,
  if◌then◌else◌, ◌∙◌,
}
use secure_kernel_loader.Base.Memory.{Memory, load}
use secure_kernel_loader.Tpm.Types.{Family, tpm20}
use secure_kernel_loader.Tpm.Buff.{TpmBuff}
use secure_kernel_loader.Tpm.Device.{Ops, Tpm, Errno}
use secure_kernel_loader.Tpm.Tpm2.{digest_step, send_command, tpm2_extend_pcr}
use secure_kernel_loader.Tpm.Tpm2.Wire.{wire_command}
use secure_kernel_loader.Tpm.Tpm2.Digests.{host_digests}
use secure_kernel_loader.Tpm.Tpm2.Command.{tpm2_extend_pcr-wire}
use secure_kernel_loader.Tpm.Front.{extend_family, digest_size, tpm_extend_pcr}

module _ {D : Type 0} (ops : Ops D) (t : Tpm D) (pcr algo : ℕ) (digest : List ℕ) where
  family-eq :
      (f : Family)
      → f ≡ tpm20
      → digest_size algo ≡ some (length digest)
      → extend_family ops f t pcr algo digest ≡ tpm2_extend_pcr ops t pcr (host_digests algo digest)
  unfolding extend_family
  family-eq f fam size = rw (fam, extend_family, size, take_all digest) refl

  present-eq : (b : Bool) (e u : Option (Tpm D × Errno)) → b ≡ true → (if not b then e else u) ≡ u
  present-eq b e u h = rw h refl

  -- On a TPM 2.0 with a buffer of fewer than 2 ^ 15 bytes that has room for the command, and for
  -- an algorithm below 2 ^ 16 whose digests have the given length in tpm_extend_pcr and in
  -- convert_digest_list alike, tpm_extend_pcr hands exactly the bytes of TPM2_PCR_Extend to the
  -- interface and returns what the send makes of them.
  pub tpm_extend_pcr-wire :
      t.family ≡ tpm20
      → t.has_buff ≡ true
      → 0 < t.buff.head
      → 33 + length digest ≤ t.buff.truesize
      → t.buff.truesize < 2 ^ 15
      → algo < 2 ^ 16
      → digest_size algo ≡ some (length digest)
      → digest_step algo ≡ some (length digest, length digest)
      → (m : Memory) × (b : TpmBuff) × (b.head ≡ t.buff.head)
        × (load m b.head b.len ≡ wire_command pcr algo digest)
        × (tpm_extend_pcr ops t pcr algo digest ≡ send_command ops t m b)
  unfolding tpm_extend_pcr
  tpm_extend_pcr-wire fam present placed room wide small size step =
      let (m, b, head, bytes, sent) = tpm2_extend_pcr-wire ops t pcr algo digest (record {
        present = present;
        placed = placed;
        room = room;
        wide = wide;
        small = small;
        step = step;
      }) in
      (m, b, head, bytes, present-eq t.has_buff _ _ present ∙ (family-eq t.family fam size ∙ sent))
