-- ===== src/Tpm/Tpm2/Digests.antt =====
-- convert_digest_list on the lists that tpm_extend_pcr makes, which have one digest.
use mathlib.Core.Path.{ap}
use secure_kernel_loader.Base.{
  ℕ, ◌+◌, ◌*◌, ◌/◌, ◌^◌, ◌<◌, ◌≡◌, some, List, ◌++◌, length, le16, le32, arith, u8,
}
use secure_kernel_loader.Tpm.Tpm2.{digest_step, convert_loop, convert_digest_list}
use secure_kernel_loader.Tpm.Types.{tpm_alg_sm3_256}
use secure_kernel_loader.Tpm.Tpm2.Wire.{wire_digests}

-- The list as the host lays it out.
abbrev pub host_digests : ℕ → List ℕ → List ℕ
host_digests alg digest = le32 1 ++ (le16 alg ++ digest)

alg-bytes : (alg : ℕ) → alg < 2 ^ 16 → u8 alg + u8 (alg / 2 ^ 8) * 2 ^ 8 ≡ alg
alg-bytes alg h = omega arith

-- For a list of one digest below 2 ^ 15 bytes, of an algorithm below 2 ^ 16 whose case in the
-- switch counts as many bytes as it skips, convert_digest_list leaves the bytes of the
-- specification and returns their number.
pub convert_digest_list-wire :
    (alg : ℕ) (digest : List ℕ)
    → alg < 2 ^ 16
    → length digest < 2 ^ 15
    → digest_step alg ≡ some (length digest, length digest)
    → convert_digest_list (host_digests alg digest)
      ≡ (wire_digests alg digest, length (wire_digests alg digest))
unfolding convert_digest_list
convert_digest_list-wire alg digest small short step =
    rw (alg-bytes alg small, step, convert_loop)
      (ap (λ (n : ℕ). (wire_digests alg digest, n)) (omega arith))

-- For a list of one SM3 digest of 32 bytes the size that convert_digest_list returns is 12 bytes
-- short of the list.
pub convert_digest_list-sm3 :
    (digest : List ℕ)
    → length digest ≡ 32
    → (convert_digest_list (host_digests tpm_alg_sm3_256 digest)).1 + 12
      ≡ length (wire_digests tpm_alg_sm3_256 digest)
unfolding convert_digest_list convert_loop
convert_digest_list-sm3 digest long = omega (arith, long)
