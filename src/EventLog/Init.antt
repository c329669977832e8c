-- ===== src/EventLog/Init.antt =====
-- event_log_init of event_log.c.
use secure_kernel_loader.Base.{
  ℕ, zero, suc, ◌+◌, ◌*◌, Bool, not, ◌||◌, ◌&&◌, Option, none, some, List, ltb, ◌==◌, ◌/=◌,
  if◌then◌else◌, u32, replicate,
}
use secure_kernel_loader.Base.Memory.{Memory, load, load16, memset}
use secure_kernel_loader.Tags.{
  Image, EventLogTag, event_log_tag, only_where, next_of_type, skl_tag_event_log, skl_tag_skl_hash,
  slb_size,
}
use secure_kernel_loader.Tpm.Types.{Family, tpm12, tpm20, tpm_alg_sha1, tpm_alg_sha256}
use secure_kernel_loader.EventLog.{Log, log_write, log_event_tpm12, log_event_tpm20}
use secure_kernel_loader.EventLog.Records.{
  codes, header12_bytes, spec_id12_bytes, spec_id20_bytes, ev_no_action,
}

-- struct skl_tag_hash at h: its algorithm and the address of its digest.
abbrev pub hash_algo : Memory → ℕ → ℕ
hash_algo m h = load16 m (h + 2)

abbrev pub hash_digest : ℕ → ℕ
hash_digest h = h + 4

-- The least size of the log, without the texts of its events.
abbrev pub min_size : Family → ℕ
min_size tpm12 = 32 + 73 + 2 * 32
min_size tpm20 = 32 + 57 + 2 * 72

abbrev spec_id_size : Family → ℕ
spec_id_size tpm12 = 73
spec_id_size tpm20 = 57

abbrev spec_id_bytes : Family → EventLogTag → List ℕ
spec_id_bytes tpm12 e = spec_id12_bytes e.size
spec_id_bytes tpm20 e = spec_id20_bytes e.address e.size

-- The label err: further calls of log_write will fail.
abbrev pub fail : Log → Log × ℕ
fail s = (record s { limit = s.ptr_current }, 1)

-- The log between its lowest and highest address and the SLB do not meet.
abbrev pub disjoint_slb : Image → ℕ → ℕ → Bool
disjoint_slb img lo hi = ltb hi img.start || ltb (img.start + slb_size) lo

-- From the memset to the end of the log's header.
unfoldable pub write_header : Family → EventLogTag → Log → Log
write_header family e s =
    let wiped = record s { memory = memset s.memory s.ptr_current 0 e.size } in
    let headed =
      (log_write wiped (header12_bytes 0 ev_no_action (replicate 20 0) (spec_id_size family))).0 in
    (log_write headed (spec_id_bytes family e)).0

-- The address of the digest in the first hash tag from h on with the algorithm SHA1; 0 if there is
-- none. The fuel of the outer loop is that of the inner ones.
module _ (img : Image) (m : Memory) (fuel : ℕ) where
  unfoldable pub find_sha1 : ℕ → Option ℕ → Option ℕ
  find_sha1 rounds none = none
  find_sha1 zero (some h) = none
  find_sha1 (suc rounds) (some h) =
      let rest = find_sha1 rounds (next_of_type img m fuel h skl_tag_skl_hash) in
      if h == 0
      then some 0
      else if hash_algo m h == tpm_alg_sha1
      then some (hash_digest h)
      else rest

  -- The loop over sha1 and sha256; (0, 0) is the end of the list without both.
  unfoldable pub find_both : ℕ → ℕ → ℕ → Option ℕ → Option (ℕ × ℕ)
  find_both rounds sha1 sha256 none = none
  find_both zero sha1 sha256 (some h) = none
  find_both (suc rounds) sha1 sha256 (some h) =
      let sha1' = if hash_algo m h == tpm_alg_sha1 then hash_digest h else sha1 in
      let sha256' = if hash_algo m h == tpm_alg_sha256 then hash_digest h else sha256 in
      let rest = find_both rounds sha1' sha256' (next_of_type img m fuel h skl_tag_skl_hash) in
      if h == 0
      then some (0, 0)
      else if (sha1' /= 0) && (sha256' /= 0)
      then some (sha1', sha256')
      else rest

abbrev pub skinit_text : List ℕ
skinit_text = codes "SKINIT"

unfoldable pub log_sha1 : Log → ℕ → Log × ℕ
log_sha1 s digest =
    if digest == 0
    then (s, 1)
    else log_event_tpm12 s
        (record { pcr = 17; sha1 = load s.memory digest 20; event = skinit_text })

unfoldable pub log_both : Log → ℕ × ℕ → Log × ℕ
log_both s (sha1, sha256) =
    if sha1 == 0
    then (s, 1)
    else log_event_tpm20 s (record {
      pcr = 17;
      sha1 = load s.memory sha1 20;
      sha256 = load s.memory sha256 32;
      event = skinit_text;
    })

-- Log what was done by SKINIT.
unfoldable pub log_skinit : Image → ℕ → Family → Log → Option (Log × ℕ)
unfolding log_sha1 log_both
log_skinit img fuel tpm12 s =
    elim (find_sha1 img s.memory fuel fuel
      (next_of_type img s.memory fuel img.data_at skl_tag_skl_hash)) [
        | none ↦ none
        | some digest ↦ some (log_sha1 s digest)
      ]
log_skinit img fuel tpm20 s =
    elim (find_both img s.memory fuel fuel 0 0
      (next_of_type img s.memory fuel img.data_at skl_tag_skl_hash)) [
        | none ↦ none
        | some digests ↦ some (log_both s digests)
      ]

-- The tests on the size, the address and the place of the log, and what follows them.
unfoldable pub init_at : Image → ℕ → Family → Log → EventLogTag → Option (Log × ℕ)
init_at img fuel family s e =
    let placed = record s {
      evtlog_base = e.address;
      ptr_current = e.address;
      limit = u32 (e.address + e.size);
    } in
    if ltb e.size (min_size family)
    then some (fail s)
    else if ltb placed.limit placed.ptr_current
    then some (fail placed)
    else if not (disjoint_slb img placed.ptr_current placed.limit)
    then some (fail placed)
    else log_skinit img fuel family (write_header family e placed)

unfoldable pub init_tag : Image → ℕ → Family → Log → Option ℕ → Option (Log × ℕ)
init_tag img fuel family s none = none
init_tag img fuel family s (some t) =
    if t == 0 then some (fail s) else init_at img fuel family s (event_log_tag s.memory t)

unfoldable pub event_log_init : Image → ℕ → Family → Log → Option (Log × ℕ)
unfolding init_tag
event_log_init img fuel family s =
    init_tag img fuel family s
      (only_where img s.memory (λ k. k == skl_tag_event_log) fuel img.data_at)
