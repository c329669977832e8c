-- ===== src/Tpm/Tpm2/Command.antt =====
-- The bytes that tpm2_extend_pcr hands to the interface.
use secure_kernel_loader.Base.{
  ℕ, ◌+◌, ◌^◌, ◌≤◌, ◌<◌, ◌≡◌, refl, ◌∙◌, true, false, some, List, length, be16, be32, arith, ◌==◌,
  take, take_all,
}
use secure_kernel_loader.Base.Memory.{Memory, load, store}
use secure_kernel_loader.Tpm.Buff.{TpmBuff, tpmb_free, tpmb_reserve, tpmb_put}
use secure_kernel_loader.Tpm.Tpm2.{
  built, digest_step, build_command, build_auth, build_params, tpm2_null_auth, tpm2_extend_pcr,
  send_command,
}
use secure_kernel_loader.Tpm.Tpm2.Bytes.{wire_load}
use secure_kernel_loader.Tpm.Device.{Ops, Tpm}
use secure_kernel_loader.Tpm.Tpm2.Wire.{wire_digests, wire_command}
use secure_kernel_loader.Tpm.Tpm2.Digests.{host_digests, convert_digest_list-wire}

-- The stores of the command at `a`, in their order.
abbrev with_names : Memory → ℕ → ℕ → Memory
with_names m a pcr =
    store (store (store m a (be16 0x8002)) (a + 6) (be32 0x182)) (a + 10) (be32 pcr)

abbrev with_auth : Memory → ℕ → Memory
with_auth m a = store (tpm2_null_auth m (a + 18)) (a + 14) (be32 9)

abbrev with_params : Memory → ℕ → List ℕ → ℕ → Memory
with_params m a params len = store (store m (a + 27) params) (a + 2) (be32 len)

abbrev used : TpmBuff → ℕ → TpmBuff
used b n = record b { len = n; locked = true; body = b.head + 10; tail = b.head + n }

put-used :
    (b : TpmBuff) (n size : ℕ)
    → n + size ≤ b.truesize
    → b.truesize < 2 ^ 15
    → tpmb_put (used b n) size ≡ (used b (n + size), b.head + n)
unfolding tpmb_put
put-used b n size room wide = ground arith

ne-zero : (a : ℕ) → 0 < a → (a == 0) ≡ false
ne-zero a h = ground arith

module _ (b : TpmBuff) (placed : 0 < b.head) (wide : b.truesize < 2 ^ 15) where
  build_params-eq :
      (m : Memory) (ds : List ℕ) (size : ℕ)
      → 0 < size
      → 27 + size ≤ b.truesize
      → build_params m (used b 27) b.head ds size
        ≡ built
            (store (store m (b.head + 27) (take size ds)) (b.head + 2) (be32 (27 + size)))
            (used b (27 + size))
  unfolding build_params
  build_params-eq m ds size pos room =
      rw (put-used b 27 size room wide, ne-zero size pos, ne-zero (b.head + 27) (omega arith)) refl

  module _ (alg : ℕ) (digest : List ℕ) (room : 33 + length digest ≤ b.truesize)
      (small : alg < 2 ^ 16) (step : digest_step alg ≡ some (length digest, length digest)) where
    build_auth-eq :
        (m : Memory)
        → build_auth m (used b 14) b.head (host_digests alg digest)
          ≡ built
              (with_params
                (with_auth m b.head)
                b.head
                (wire_digests alg digest)
                (33 + length digest))
              (used b (33 + length digest))
    unfolding build_auth
    build_auth-eq m =
        rw
          (
            put-used b 14 4 (omega arith) wide,
            put-used b 18 9 (omega arith) wide,
            convert_digest_list-wire alg digest small (omega arith) step,
            ne-zero (b.head + 14) (omega arith),
            ne-zero (b.head + 18) (omega arith),
          )
          (build_params-eq (with_auth m b.head) (wire_digests alg digest)
              (length (wire_digests alg digest)) (omega arith) (omega arith)
            ∙ rw (take_all (wire_digests alg digest), count) refl)
      where
        count : 27 + length (wire_digests alg digest) ≡ 33 + length digest
        count = omega arith

    abbrev final : Memory → ℕ → Memory
    final m pcr =
        with_params (with_auth (with_names (tpmb_free m b).0 b.head pcr) b.head) b.head
          (wire_digests alg digest) (33 + length digest)

    pub build_command-eq :
        (m : Memory) (pcr : ℕ)
        → build_command m b pcr (host_digests alg digest)
          ≡ built (final m pcr) (used b (33 + length digest))
    unfolding build_command
    build_command-eq m pcr =
        rw
          (
            reserved,
            put-used b 10 4 (omega arith) wide,
            ne-zero b.head placed,
            ne-zero (b.head + 10) (omega arith),
          )
          (build_auth-eq (with_names (tpmb_free m b).0 b.head pcr))
      where
        reserved : tpmb_reserve (tpmb_free m b).1 ≡ (used b 10, b.head)
        reserved = unfold tpmb_free tpmb_reserve in refl

module _ {D : Type 0} (ops : Ops D) (t : Tpm D) (pcr alg : ℕ) (digest : List ℕ) where
  -- The buffer can hold the command, and the algorithm is one whose digests have this length.
  pub record CanExtend : Type 0 where
    pub present : t.has_buff ≡ true
    pub placed : 0 < t.buff.head
    pub room : 33 + length digest ≤ t.buff.truesize
    pub wide : t.buff.truesize < 2 ^ 15
    pub small : alg < 2 ^ 16
    pub step : digest_step alg ≡ some (length digest, length digest)

  -- With a buffer of fewer than 2 ^ 15 bytes that has room for the command, and an algorithm below
  -- 2 ^ 16 whose case in convert_digest_list skips and counts as many bytes as the digest has,
  -- tpm2_extend_pcr hands to the interface exactly the bytes of TPM2_PCR_Extend of the
  -- specification and returns what the send makes of them.
  pub tpm2_extend_pcr-wire :
      CanExtend
      → (m : Memory) × (b : TpmBuff) × (b.head ≡ t.buff.head)
        × (load m b.head b.len ≡ wire_command pcr alg digest)
        × (tpm2_extend_pcr ops t pcr (host_digests alg digest) ≡ send_command ops t m b)
  unfolding tpm2_extend_pcr
  tpm2_extend_pcr-wire c = (
    final t.buff c.placed c.wide alg digest c.room c.small c.step t.memory pcr,
    used t.buff (33 + length digest),
    refl,
    wire_load freed t.buff.head pcr alg digest,
    rw
        (
          c.present,
          build_command-eq t.buff c.placed c.wide alg digest c.room c.small c.step t.memory pcr,
        )
        refl,
  )
    where
      freed : Memory
      freed = (tpmb_free t.memory t.buff).0
