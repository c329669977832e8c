-- ===== src/EventLog/Headed.antt =====
-- The memory behind the header of the log, and that events leave the header as it is.
use secure_kernel_loader.Base.{
  ℕ, ◌+◌, ◌^◌, ◌≤◌, ◌<◌, ◌≡◌, refl, ◌∙◌, sym, ap, inl, inr, List, [], ◌∷◌, ◌++◌, arith, length,
  le32, le64, u32, replicate,
}
use secure_kernel_loader.Base.Memory.{
  Memory, load, load32, load_agree, load-store, load-store_outside, store, store-append, memset,
  store-Outside,
}
use secure_kernel_loader.Tags.{EventLogTag}
use secure_kernel_loader.Tpm.Types.{Family, tpm12, tpm20}
use secure_kernel_loader.EventLog.{Log, log_record, log_event_tpm12, log_event_tpm20}
use secure_kernel_loader.EventLog.Records.{
  Event20, event12_bytes, event20_bytes, header12_bytes, ev_no_action, spec_id12_bytes,
  spec_id20_bytes, codes,
}
use secure_kernel_loader.EventLog.Init.{write_header}
use secure_kernel_loader.EventLog.Write.{log_record_fits, log_record_full}
use secure_kernel_loader.EventLog.Header.{IsPlaced, write_header12, write_header20}
use secure_kernel_loader.EventLog.Entries.{le-or-lt}
use secure_kernel_loader.EventLog.Kept.{Logs, event12, log_event}

-- The header of a log of `size` bytes at `base` as the specifications lay it out, up to the offset
-- of its next event: an event of type 3 with 20 zero bytes for a digest and the size of what follows,
-- and then the signature, the versions, the algorithms with the sizes of their digests, and the log.
abbrev pub header_of : Family → ℕ → ℕ → List ℕ
header_of tpm12 base size =
    le32 0
    ++ le32 3
    ++ replicate 20 0
    ++ le32 73
    ++ codes "Spec ID Event00"
    ++ (0 ∷ 0 ∷ 0 ∷ 0 ∷ 0 ∷ 2 ∷ 1 ∷ 1 ∷ 0 ∷ 48 ∷ [])
    ++ codes "TXT Event Container"
    ++ replicate 13 0
    ++ (1 ∷ 0 ∷ 1 ∷ 0 ∷ [])
    ++ le32 size
    ++ le32 48
header_of tpm20 base size =
    le32 0
    ++ le32 3
    ++ replicate 20 0
    ++ le32 57
    ++ codes "Spec ID Event03"
    ++ (0 ∷ 0 ∷ 0 ∷ 0 ∷ 0 ∷ 0 ∷ 2 ∷ 0 ∷ 2 ∷ [])
    ++ (2 ∷ 0 ∷ 0 ∷ 0 ∷ 4 ∷ 0 ∷ 20 ∷ 0 ∷ 0xB ∷ 0 ∷ 32 ∷ 0 ∷ 20 ∷ [])
    ++ le64 base
    ++ le32 size
    ++ le32 0

abbrev pub header_size : Family → ℕ
header_size tpm12 = 101
header_size tpm20 = 85

-- The offset that an empty log has.
abbrev first_offset : Family → ℕ
first_offset tpm12 = 48
first_offset tpm20 = 89

-- The memory with an empty log: wiped, and then the header.
abbrev pub headed_memory : Family → Memory → ℕ → ℕ → Memory
headed_memory family m base size =
    store (memset m base 0 size) base (header_of family base size ++ le32 (first_offset family))

pub write_header-memory :
    (family : Family) (e : EventLogTag) (s : Log)
    → IsPlaced family e s
    → e.address ≡ s.ptr_current
    → (write_header family e s).memory ≡ headed_memory family s.memory s.ptr_current e.size
write_header-memory tpm12 e s p a =
    ap (λ (k : Log). k.memory) (write_header12 e s p)
    ∙ sym (
        store-append (memset s.memory s.ptr_current 0 e.size) s.ptr_current
          (header12_bytes 0 ev_no_action (replicate 20 0) 73) (spec_id12_bytes e.size))
write_header-memory tpm20 e s p a =
    ap (λ (k : Log). k.memory) (write_header20 e s p)
    ∙ rw a (
        sym (
          store-append (memset s.memory s.ptr_current 0 e.size) s.ptr_current
            (header12_bytes 0 ev_no_action (replicate 20 0) 57)
            (spec_id20_bytes s.ptr_current e.size)))

pub header-load :
    (family : Family) (m : Memory) (base size : ℕ)
    → load (headed_memory family m base size) base (header_size family) ≡ header_of family base size
header-load tpm12 m base size = rw store-append (
    load-store_outside (store (memset m base 0 size) base (header_of tpm12 base size)) (base + 101)
      (le32 48) base 101 (inl (omega arith))
    ∙ load-store (memset m base 0 size) base (header_of tpm12 base size))
header-load tpm20 m base size = rw store-append (
    load-store_outside (store (memset m base 0 size) base (header_of tpm20 base size)) (base + 85)
      (le32 89) base 85 (inl (omega arith))
    ∙ load-store (memset m base 0 size) base (header_of tpm20 base size))

-- An event is written at the offset and behind the last one.
record_before :
    (s : Log) (field : ℕ) (header text : List ℕ)
    → field + 4 ≤ s.ptr_current
    → s.ptr_current ≤ s.limit
    → s.limit < 2 ^ 64
    → length text < 2 ^ 32
    → (x : ℕ) → x < field
    → (log_record s field header text).0.memory x ≡ s.memory x
record_before s field header text f o w short x l =
    elim (le-or-lt (s.ptr_current + length (header ++ text)) s.limit) [
      | inl fits ↦ rw (log_record_fits s field header text o w short fits) (
          store-Outside
            (store s.memory field (le32 (u32 (load32 s.memory field + length (header ++ text)))))
            s.ptr_current (header ++ text) x (omega arith)
          ∙ store-Outside s.memory field
              (le32 (u32 (load32 s.memory field + length (header ++ text)))) x (omega arith))
      | inr full ↦ rw (log_record_full s field header text o w short full) refl
    ]

pub log_event-before :
    (family : Family) (s : Log) (es : List Event20) (e : Event20)
    → Logs family s es
    → length e.event < 2 ^ 32
    → load (log_event family s e).0.memory s.evtlog_base (header_size family)
      ≡ load s.memory s.evtlog_base (header_size family)
unfolding log_event_tpm12 log_event_tpm20
log_event-before tpm12 s es e h short = load_agree _ s.memory s.evtlog_base 101 (λ x p q.
    record_before s (s.evtlog_base + 101) (event12_bytes (event12 e)) e.event
      (omega (arith, h.at_end)) h.within h.wide short x q)
log_event-before tpm20 s es e h short = load_agree _ s.memory s.evtlog_base 85 (λ x p q.
    record_before s (s.evtlog_base + 85) (event20_bytes e) e.event (omega (arith, h.at_end))
      h.within h.wide short x q)
