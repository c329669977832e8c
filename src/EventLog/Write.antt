-- ===== src/EventLog/Write.antt =====
-- log_record, which both log_event functions run: what it writes, where, and when it refuses.
use secure_kernel_loader.Base.{
  ℕ, ◌+◌, ◌^◌, ◌≤◌, ◌<◌, ◌≡◌, refl, true, List, ◌++◌, arith, length, length-append, take_all, u32,
  le32,
}
use native.Mathlib.Nat.{add_assoc}
use secure_kernel_loader.Base.Memory.{load32, store, store-append}
use secure_kernel_loader.EventLog.{Log, log_write, has_enough_space, log_record}

-- The log that a record of the given bytes leaves behind.
abbrev pub appended : Log → ℕ → List ℕ → Log
appended s field bytes = record s {
  ptr_current = s.ptr_current + length bytes;
  memory =
      store (store s.memory field (le32 (u32 (load32 s.memory field + length bytes)))) s.ptr_current
        bytes;
}

pub log_write_fits :
    (s : Log) (bytes : List ℕ)
    → s.ptr_current + length bytes < s.limit
    → log_write s bytes ≡ (
      record s {
        ptr_current = s.ptr_current + length bytes;
        memory = store s.memory s.ptr_current bytes;
      },
      0,
    )
unfolding log_write
log_write_fits s bytes fits = ground arith

module _ (s : Log) (field : ℕ) (header text : List ℕ) (ordered : s.ptr_current ≤ s.limit)
    (wide : s.limit < 2 ^ 64) (short : length text < 2 ^ 32) where
  -- A record that fits is appended whole.
  pub log_record_fits :
      s.ptr_current + length (header ++ text) < s.limit
      → log_record s field header text ≡ (appended s field (header ++ text), 0)
  unfolding log_record
  log_record_fits fits =
      let size : u32 (length text) ≡ length text = omega arith in
      let total : length (header ++ text) ≡ length header + length text =
        length-append header text in
      let room : has_enough_space s (length header + length text) ≡ true = ground (arith, total) in
      let moved : Log = record s {
        memory =
            store s.memory field
              (le32 (u32 (load32 s.memory field + (length header + length text))));
      } in
      let started : Log = record moved {
        ptr_current = s.ptr_current + length header;
        memory = store moved.memory s.ptr_current header;
      } in
      rw
        (
          size,
          room,
          log_write_fits moved header (omega (arith, total)),
          take_all text,
          log_write_fits started text (omega (arith, total)),
          total,
          store-append,
          add_assoc,
        )
        refl

  -- One that does not fit leaves the log as it was.
  pub log_record_full :
      s.limit ≤ s.ptr_current + length (header ++ text) → log_record s field header text ≡ (s, 1)
  unfolding log_record
  log_record_full full = ground (arith, length-append header text)
