-- ===== src/Tpm/Tpm2/Wire.antt =====
-- TPM2_PCR_Extend as the TPM 2.0 specification lays it out, with one digest and the null
-- authorisation: the independent description that the code is compared with.
use secure_kernel_loader.Base.{ℕ, ◌+◌, List, ◌++◌, length, be16, be32, replicate}

abbrev pub wire_auth : List ℕ
wire_auth = be32 0x40000009 ++ replicate 5 0

abbrev pub wire_digests : ℕ → List ℕ → List ℕ
wire_digests alg digest = be32 1 ++ (be16 alg ++ digest)

abbrev pub wire_command : ℕ → ℕ → List ℕ → List ℕ
wire_command pcr alg digest =
    be16 0x8002
    ++ (be32 (33 + length digest)
        ++ (be32 0x182 ++ (be32 pcr ++ (be32 9 ++ (wire_auth ++ wire_digests alg digest)))))
