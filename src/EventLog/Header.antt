-- ===== src/EventLog/Header.antt =====
-- What event_log_init leaves in memory: the header, and the event of SKINIT behind it.
use secure_kernel_loader.Base.{
  ℕ, ◌+◌, ◌^◌, ◌≤◌, ◌<◌, ◌≡◌, refl, ◌∙◌, ap, List, [], arith, length, replicate,
}
use secure_kernel_loader.Base.Memory.{load, store, memset, load32-store_inside}
use secure_kernel_loader.Tags.{EventLogTag}
use secure_kernel_loader.Tpm.Types.{Family, tpm12, tpm20}
use secure_kernel_loader.EventLog.{Log, log_write}
use secure_kernel_loader.EventLog.Records.{
  header12_bytes, ev_no_action, spec_id12_bytes, spec_id20_bytes,
}
use secure_kernel_loader.EventLog.Init.{write_header, min_size}
use secure_kernel_loader.EventLog.Write.{log_write_fits}
use secure_kernel_loader.EventLog.Entries.{Logs12, Logs20}

-- The log as it stands once its place is set.
abbrev pub IsPlaced : Family → EventLogTag → Log → Type 0
IsPlaced family e s =
    (s.evtlog_base ≡ s.ptr_current)
    × (s.limit ≡ s.ptr_current + e.size)
    × (min_size family ≤ e.size)
    × (s.limit < 2 ^ 32)

abbrev headed : EventLogTag → List ℕ → List ℕ → Log → Log
headed e header id s = record s {
  ptr_current = s.ptr_current + length header + length id;
  memory =
      store (store (memset s.memory s.ptr_current 0 e.size) s.ptr_current header)
        (s.ptr_current + length header) id;
}

abbrev event_header : ℕ → List ℕ
event_header size = header12_bytes 0 ev_no_action (replicate 20 0) size

module _ (e : EventLogTag) (s : Log) where
  write_both :
      (header id : List ℕ)
      → s.ptr_current + length header + length id < s.limit
      → (log_write
          (log_write (record s { memory = memset s.memory s.ptr_current 0 e.size }) header).0
          id).0
        ≡ headed e header id s
  write_both header id fits =
      let wiped : Log = record s { memory = memset s.memory s.ptr_current 0 e.size } in
      let middle : Log = record wiped {
        ptr_current = s.ptr_current + length header;
        memory = store wiped.memory s.ptr_current header;
      } in
      ap (λ (r : Log × ℕ). (log_write r.0 id).0) (log_write_fits wiped header (omega arith))
      ∙ ap (λ (r : Log × ℕ). r.0) (log_write_fits middle id (omega arith))

  pub write_header12 :
      IsPlaced tpm12 e s
      → write_header tpm12 e s ≡ headed e (event_header 73) (spec_id12_bytes e.size) s
  unfolding write_header
  write_header12 (b, l, m, w) = write_both (event_header 73) (spec_id12_bytes e.size) (omega arith)

  pub write_header20 :
      IsPlaced tpm20 e s
      → write_header tpm20 e s ≡ headed e (event_header 57) (spec_id20_bytes e.address e.size) s
  unfolding write_header
  write_header20 (b, l, m, w) =
      write_both (event_header 57) (spec_id20_bytes e.address e.size) (omega arith)

  -- In a place below 4 GB of at least the least size, the header that event_log_init writes makes
  -- a TPM 1.2 log that holds no event.
  pub write_header-Logs12 : IsPlaced tpm12 e s → Logs12 (write_header tpm12 e s) []
  write_header-Logs12 (b, l, m, w) = rw (write_header12 (b, l, m, w)) (record {
    at_end = omega arith;
    within = omega arith;
    wide = omega arith;
    apart = omega arith;
    content = unfold load in refl;
    offset =
        rw (b, field)
          (load32-store_inside
            (store (memset s.memory s.ptr_current 0 e.size) s.ptr_current (event_header 73))
            (s.ptr_current + 32) (spec_id12_bytes e.size) 69 (omega arith));
  })
    where
      field : s.ptr_current + 101 ≡ s.ptr_current + 32 + 69
      field = omega arith

  -- In a place below 4 GB of at least the least size, the header that event_log_init writes makes
  -- a TPM 2.0 log that holds no event.
  pub write_header-Logs20 : IsPlaced tpm20 e s → Logs20 (write_header tpm20 e s) []
  write_header-Logs20 (b, l, m, w) = rw (write_header20 (b, l, m, w)) (record {
    at_end = omega arith;
    within = omega arith;
    wide = omega arith;
    apart = omega arith;
    content = unfold load in refl;
    offset =
        rw (b, field)
          (load32-store_inside
            (store (memset s.memory s.ptr_current 0 e.size) s.ptr_current (event_header 57))
            (s.ptr_current + 32) (spec_id20_bytes e.address e.size) 53 (omega arith));
  })
    where
      field : s.ptr_current + 85 ≡ s.ptr_current + 32 + 53
      field = omega arith
