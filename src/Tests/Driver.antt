-- ===== src/Tests/Driver.antt =====
-- The theorems on string.c, the digests and the TPM driver at concrete inputs.
use secure_kernel_loader.Base.{
  length, ℕ, ◌+◌, ◌≡◌, refl, true, false, some, List, [], ◌∷◌, arith, replicate,
}
use secure_kernel_loader.Base.Memory.{Memory, load, memcpy, store, strlen}
use secure_kernel_loader.EventLog.Records.{codes}
use secure_kernel_loader.Sha.Digest.{fips_digest, sha1sum-fips_digest, sha256sum-fips_digest}
use secure_kernel_loader.Sha.Fips.Constants.{h1_fips, h256_fips}
use secure_kernel_loader.Sha.Fips.Block1.{block1}
use secure_kernel_loader.Sha.Fips.Block256.{block256}
use secure_kernel_loader.Sha.Sha1.{sha1sum}
use secure_kernel_loader.Sha.Sha256.{sha256sum}
use secure_kernel_loader.Tpm.Types.{tpm20, tpm_tis}
use secure_kernel_loader.Tpm.Buff.{TpmBuff, alloc_tpmbuff}
use secure_kernel_loader.Tpm.Device.{Ops, Tpm}
use secure_kernel_loader.Tpm.Tpm2.{convert_digest_list, send_command, tpm2_extend_pcr}
use secure_kernel_loader.Tpm.Tpm2.Wire.{wire_command, wire_digests}
use secure_kernel_loader.Tpm.Tpm2.Digests.{
  host_digests, convert_digest_list-wire, convert_digest_list-sm3,
}
use secure_kernel_loader.Tpm.Tpm2.Command.{tpm2_extend_pcr-wire}

abbrev hello : List ℕ
hello = codes "hello"

sha1sum-fips_digest_example : sha1sum hello 5 ≡ fips_digest block1 h1_fips hello
sha1sum-fips_digest_example = sha1sum-fips_digest hello 5 refl

sha256sum-fips_digest_example : sha256sum hello 5 ≡ fips_digest block256 h256_fips hello
sha256sum-fips_digest_example = sha256sum-fips_digest hello 5 refl

-- The buffer of the TIS interface at 0x4000, before and after its allocation.
abbrev blank : TpmBuff
blank = record { truesize = 0; len = 0; locked = false; head = 0; body = 0; tail = 0; end_at = 0 }

abbrev fresh : TpmBuff
unfolding alloc_tpmbuff
fresh = alloc_tpmbuff 0x4000 blank tpm_tis 2

abbrev zeros : Memory
zeros = λ x. 0

abbrev digest : List ℕ
digest = replicate 20 7

convert_digest_list-wire_example :
    convert_digest_list (host_digests 4 digest) ≡ (wire_digests 4 digest, 26)
convert_digest_list-wire_example =
    convert_digest_list-wire 4 digest (omega arith) (omega arith) refl

-- A device that takes every command whole.
abbrev taking : Ops ℕ
taking = record {
  request_locality = λ d l. (d, l);
  relinquish_locality = λ d. d;
  send = λ d m b. some (record { device = d + 1; size = b.len });
  recv = λ family d m b. some (record { device = d; memory = m; buff = b; size = b.len });
}

abbrev tpm : Tpm ℕ
tpm = record {
  family = tpm20;
  intf = tpm_tis;
  has_buff = true;
  buff = fresh;
  memory = zeros;
  device = 0;
}

tpm2_extend_pcr-wire_example :
    (m : Memory) × (b : TpmBuff) × (b.head ≡ 0x4000)
    × (load m b.head b.len ≡ wire_command 17 4 digest)
    × (tpm2_extend_pcr taking tpm 17 (host_digests 4 digest) ≡ send_command taking tpm m b)
unfolding alloc_tpmbuff
tpm2_extend_pcr-wire_example = tpm2_extend_pcr-wire taking tpm 17 4 digest (record {
  present = refl;
  placed = omega arith;
  room = omega arith;
  wide = omega arith;
  small = omega arith;
  step = refl;
})

-- "AB" at address 10.
unfoldable text : Memory
unfolding store
text = store zeros 10 (65 ∷ 66 ∷ 0 ∷ [])

letters : strlen 8 text 10 0 ≡ some 2
unfolding text strlen
letters = refl

letters_copied : load (memcpy text 20 10 3) 20 3 ≡ 65 ∷ 66 ∷ 0 ∷ []
unfolding text memcpy load
letters_copied = refl

convert_digest_list-sm3_example :
    (convert_digest_list (host_digests 0x12 (replicate 32 5))).1 + 12
    ≡ length (wire_digests 0x12 (replicate 32 5))
convert_digest_list-sm3_example = convert_digest_list-sm3 (replicate 32 5) refl
