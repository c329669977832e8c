-- ===== src/EventLog.antt =====
-- event_log.c: the TPM event log that the loader writes into memory which the bootloader chose.
-- The state is the three static pointers and memory. An event's text is the bytes of its C string
-- before the terminating zero, and packed structs are the bytes that they have in memory.
pub mod Records
pub mod Init
pub mod Write
pub mod Entries
pub mod Header
pub mod Safety
pub mod Start
pub mod Headed
pub mod Skinit
pub mod Kept
pub mod Parse
use secure_kernel_loader.Base.{
  ℕ, ◌+◌, ◌≡◌, Bool, List, [], ◌∷◌, ◌++◌, ltb, leb, if◌then◌else◌, length, take, u32, sub64, le32,
}
use secure_kernel_loader.Base.Memory.{Memory, load32, store}
use Records.{Event12, Event20, event12_bytes, event20_bytes}

-- evtlog_base, ptr_current and limit, with the memory that they point into.
pub record Log : Type 0 where
  pub evtlog_base : ℕ
  pub ptr_current : ℕ
  pub limit : ℕ
  pub memory : Memory

-- `limit - ptr_current` is signed in log_write, and is compared as it stands.
unfoldable pub log_write : Log → List ℕ → Log × ℕ
log_write s bytes = if leb s.limit (s.ptr_current + length bytes) then (s, 1) else (
  record s {
    ptr_current = s.ptr_current + length bytes;
    memory = store s.memory s.ptr_current bytes;
  },
  0,
)

-- In HAS_ENOUGH_SPACE the size is a size_t, so the difference is converted to 64 unsigned bits.
abbrev pub has_enough_space : Log → ℕ → Bool
has_enough_space s n = ltb n (sub64 s.limit s.ptr_current)

-- The part that log_event_tpm12 and log_event_tpm20 share: `field` is the address of the offset in
-- the log's header that moves with the end of the log.
unfoldable pub log_record : Log → ℕ → List ℕ → List ℕ → Log × ℕ
log_record s field header text =
    let size = u32 (length text) in
    let moved = record s {
      memory = store s.memory field (le32 (u32 (load32 s.memory field + (length header + size))));
    } in
    let started = (log_write moved header).0 in
    if has_enough_space s (length header + size) then log_write started (take size text) else (s, 1)

-- next_event_offset of the TPM 1.2 container header, and next_record_offset of the TPM 2.0 element.
abbrev pub next_event_offset_at : Log → ℕ
next_event_offset_at s = s.evtlog_base + 101

abbrev pub next_record_offset_at : Log → ℕ
next_record_offset_at s = s.evtlog_base + 85

unfoldable pub log_event_tpm12 : Log → Event12 → Log × ℕ
log_event_tpm12 s e = log_record s (next_event_offset_at s) (event12_bytes e) e.event

unfoldable pub log_event_tpm20 : Log → Event20 → Log × ℕ
log_event_tpm20 s e = log_record s (next_record_offset_at s) (event20_bytes e) e.event
