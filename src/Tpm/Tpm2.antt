-- ===== src/Tpm/Tpm2.antt =====
-- tpmlib/tpm2_cmds.c and tpm2_auth.c: the TPM2_PCR_Extend command. A digest list is the bytes of
-- struct tpml_digest_values as the host lays them out.
pub mod Wire
pub mod Digests
pub mod Bytes
pub mod Command
pub mod Keeps
use secure_kernel_loader.Base.{
  ℕ, zero, suc, ◌+◌, Bool, true, false, not, Option, none, some, List, [], ◌∷◌, ◌++◌, ltb, ◌==◌,
  ◌/=◌, if◌then◌else◌, get_or, set, take, replicate, u16, u32, be16, be32, get_le16, get_le32,
}
use secure_kernel_loader.Base.Memory.{Memory, store, memset}
use secure_kernel_loader.Tpm.Types.{
  tpm_alg_sha1, tpm_alg_sha256, tpm_alg_sha384, tpm_alg_sha512, tpm_alg_sm3_256, tpm_cc_pcr_extend,
  tpm_st_sessions, tpm_rs_pw,
}
use secure_kernel_loader.Tpm.Buff.{TpmBuff, tpmb_free, tpmb_reserve, tpmb_put}
use secure_kernel_loader.Tpm.Device.{Ops, Sent, Tpm, Errno, success, einval, enomem, eagain}

abbrev pub null_auth_size : ℕ
null_auth_size = 9

-- A case of the switch in convert_digest_list: how far `h` advances, and the digest's part of the
-- size. `none` is the default case.
abbrev pub digest_step : ℕ → Option (ℕ × ℕ)
digest_step alg =
    if alg == tpm_alg_sha1
    then some (20, 20)
    else if alg == tpm_alg_sha256
    then some (32, 32)
    else if alg == tpm_alg_sha384
    then some (48, 48)
    else if alg == tpm_alg_sha512
    then some (64, 64)
    else if alg == tpm_alg_sm3_256
    then some (32, 20)
    else none

-- h->alg = cpu_to_be16(h->alg), and the same for a word of 32 bits.
abbrev pub swap16 : List ℕ → ℕ → List ℕ
swap16 ds h = set (set ds h (get_or ds (h + 1) 0)) (h + 1) (get_or ds h 0)

abbrev pub swap32 : List ℕ → ℕ → List ℕ
swap32 ds h =
    set
      (set (set (set ds h (get_or ds (h + 3) 0)) (h + 1) (get_or ds (h + 2) 0)) (h + 2)
        (get_or ds (h + 1) 0))
      (h + 3) (get_or ds h 0)

-- The loop with `rounds` entries left, and the list with its size behind it; size 0 is the failure.
unfoldable pub convert_loop : ℕ → ℕ → ℕ → List ℕ → List ℕ × ℕ
convert_loop zero h size ds = (swap32 ds 0, size)
convert_loop (suc rounds) h size ds = elim (digest_step (get_le16 ds h)) [
  | none ↦ (ds, 0)
  | some (advance, digest) ↦
      convert_loop rounds (h + advance) (u16 (size + (2 + digest))) (swap16 ds h)
]

unfoldable pub convert_digest_list : List ℕ → List ℕ × ℕ
unfolding convert_loop
convert_digest_list ds = convert_loop (get_le32 ds 0) 4 4 ds

-- How far the command was built: up to the send, to the label free, or to the label out.
pub data Build : Type 0 where
  built : Memory → TpmBuff → Build
  no_room : Memory → TpmBuff → Build
  no_header : Memory → TpmBuff → Build

-- tpm2_null_auth: NULL, or the area with the handle TPM_RS_PW and zeros.
abbrev pub tpm2_null_auth : Memory → ℕ → Memory
tpm2_null_auth m auth = store (memset m auth 0 null_auth_size) auth (be32 tpm_rs_pw)

-- The parameters and the size of the whole command.
unfoldable pub build_params : Memory → TpmBuff → ℕ → List ℕ → ℕ → Build
build_params m b header ds size =
    let (b', params) = tpmb_put b size in
    let copied = store m params (take size ds) in
    if size == 0
    then no_room m b
    else if params == 0
    then no_room m b'
    else built (store copied (header + 2) (be32 b'.len)) b'

-- The authorisation area behind its size.
unfoldable pub build_auth : Memory → TpmBuff → ℕ → List ℕ → Build
build_auth m b header ds =
    let (b1, auth_size) = tpmb_put b 4 in
    let (b2, auth) = tpmb_put b1 null_auth_size in
    let authorised = store (tpm2_null_auth m auth) auth_size (be32 null_auth_size) in
    let (ds', size) = convert_digest_list ds in
    if auth_size == 0
    then no_room m b1
    else if auth == 0
    then no_room m b2
    else build_params authorised b2 header ds' size

-- tpm2_alloc_cmd with the tag and code of the command, and the handle of the PCR.
unfoldable pub build_command : Memory → TpmBuff → ℕ → List ℕ → Build
build_command m b pcr ds =
    let (m1, b1) = tpmb_free m b in
    let (b2, header) = tpmb_reserve b1 in
    let (b3, handles) = tpmb_put b2 4 in
    let named =
      store (store m1 header (be16 tpm_st_sessions)) (header + 6) (be32 tpm_cc_pcr_extend) in
    if header == 0
    then no_header m1 b2
    else if handles == 0
    then no_room named b3
    else build_auth (store named handles (be32 pcr)) b3 header ds

module _ {D : Type 0} (ops : Ops D) where
  -- The label free, with the return value.
  abbrev pub finish : Tpm D → Memory → TpmBuff → D → Errno → Tpm D × Errno
  finish t m b d ret =
      let (m', b') = tpmb_free m b in (record t { memory = m'; buff = b'; device = d }, ret)

  -- The send: its size_t result is stored in a u16 before it is compared.
  abbrev pub send_command : Tpm D → Memory → TpmBuff → Option (Tpm D × Errno)
  send_command t m b = elim (ops.send t.device m b) [
    | none ↦ none
    | some s ↦ some (finish t m b s.device (if u16 s.size == b.len then success else eagain))
  ]

  run_build : Tpm D → Build → Option (Tpm D × Errno)
  run_build t (built m b) = send_command t m b
  run_build t (no_room m b) = some (finish t m b t.device enomem)
  run_build t (no_header m b) = some (record t { memory = m; buff = b }, enomem)

  unfoldable pub tpm2_extend_pcr : Tpm D → ℕ → List ℕ → Option (Tpm D × Errno)
  unfolding run_build
  tpm2_extend_pcr t pcr ds =
      if not t.has_buff
      then some (t, einval)
      else run_build t (build_command t.memory t.buff pcr ds)
