-- ===== src/EventLog/Safety.antt =====
-- What event_log_init promises whatever the bootloader passes: a log that is shut, or one that
-- lies apart from the SLB; and that a log that is shut stays as it is.
use secure_kernel_loader.Base.{
  ℕ, ◌+◌, ◌^◌, ◌≤◌, ◌<◌, ◌≡◌, refl, ◌∙◌, ◌⊎◌, inl, inr, List, ◌++◌, arith, length, u32, le32,
  replicate,
}
use secure_kernel_loader.Base.Memory.{Memory, load32, store, memset, store-Outside, memset-Outside}
use secure_kernel_loader.Tags.{EventLogTag}
use secure_kernel_loader.Tpm.Types.{Family, tpm12, tpm20}
use secure_kernel_loader.EventLog.{
  Log, log_write, log_record, log_event_tpm12, log_event_tpm20, next_event_offset_at,
  next_record_offset_at,
}
use secure_kernel_loader.EventLog.Records.{
  Event12, Event20, event12_bytes, event20_bytes, header12_bytes, ev_no_action, spec_id12_bytes,
  spec_id20_bytes,
}
use secure_kernel_loader.EventLog.Init.{write_header}
use secure_kernel_loader.EventLog.Write.{appended, log_record_fits, log_record_full}
use secure_kernel_loader.EventLog.Header.{IsPlaced, write_header12, write_header20}
use secure_kernel_loader.EventLog.Entries.{Logs12, Logs20, le-or-lt, le-or-lt}

-- What the label err leaves: no room at all.
abbrev pub IsShut : Log → Type 0
IsShut s = s.limit ≡ s.ptr_current

record_refused :
    (s : Log) (field : ℕ) (header text : List ℕ)
    → IsShut s
    → log_record s field header text ≡ (s, 1)
unfolding log_record
record_refused s field header text shut = rw shut (ground arith)

-- On a log that is shut both log_event functions and log_write return 1 and change nothing.
pub shut_refuses :
    (s : Log)
    → IsShut s
    → ((e : Event12) → log_event_tpm12 s e ≡ (s, 1))
      × ((e : Event20) → log_event_tpm20 s e ≡ (s, 1))
      × ((bytes : List ℕ) → log_write s bytes ≡ (s, 1))
unfolding log_event_tpm12 log_event_tpm20 log_write
shut_refuses s shut = (
  λ e. record_refused s (next_event_offset_at s) (event12_bytes e) e.event shut,
  λ e. record_refused s (next_record_offset_at s) (event20_bytes e) e.event shut,
  λ bytes. ground arith,
)

-- Nothing outside the log is written, and the log does not move.
pub record IsWithin (s t : Log) : Type 0 where
  pub base : t.evtlog_base ≡ s.evtlog_base
  pub top : t.limit ≡ s.limit
  pub outside : (x : ℕ) → (x < s.evtlog_base) ⊎ (s.limit ≤ x) → t.memory x ≡ s.memory x

IsWithin-trans : {s t u : Log} → IsWithin s t → IsWithin t u → IsWithin s u
IsWithin-trans {s} {t} {u} p q = record {
  base = q.base ∙ p.base;
  top = q.top ∙ p.top;
  outside = λ x o. q.outside x (ground (arith, p.base, p.top)) ∙ p.outside x o;
}

appended-IsWithin :
    (s : Log) (field : ℕ) (bytes : List ℕ)
    → s.evtlog_base ≤ field
    → field + 4 ≤ s.ptr_current
    → s.ptr_current + length bytes < s.limit
    → IsWithin s (appended s field bytes)
appended-IsWithin s field bytes b f l = record {
  base = refl;
  top = refl;
  outside = λ x o.
      store-Outside (store s.memory field (le32 (u32 (load32 s.memory field + length bytes))))
        s.ptr_current bytes x (omega arith)
      ∙ store-Outside s.memory field (le32 (u32 (load32 s.memory field + length bytes))) x
          (omega arith);
}

record-IsWithin :
    (s : Log) (field : ℕ) (header text : List ℕ)
    → s.evtlog_base ≤ field
    → field + 4 ≤ s.ptr_current
    → s.ptr_current ≤ s.limit
    → s.limit < 2 ^ 64
    → length text < 2 ^ 32
    → IsWithin s (log_record s field header text).0
record-IsWithin s field header text b f o w short =
    elim (le-or-lt (s.ptr_current + length (header ++ text)) s.limit) [
      | inl fits ↦
          rw (log_record_fits s field header text o w short fits)
            (appended-IsWithin s field (header ++ text) b f fits)
      | inr full ↦
          rw (log_record_full s field header text o w short full)
            (record { base = refl; top = refl; outside = λ x p. refl })
    ]

-- On a TPM 1.2 log that holds a list of events, log_event_tpm12 with a text below 4 GB writes no
-- byte outside the log and moves neither end of it.
pub log_event_tpm12-IsWithin :
    (s : Log) (es : List Event12) (e : Event12)
    → Logs12 s es
    → length e.event < 2 ^ 32
    → IsWithin s (log_event_tpm12 s e).0
unfolding log_event_tpm12
log_event_tpm12-IsWithin s es e h short =
    record-IsWithin s (next_event_offset_at s) (event12_bytes e) e.event (omega arith)
      (omega (arith, h.at_end)) h.within h.wide short

-- On a TPM 2.0 log that holds a list of events, log_event_tpm20 with a text below 4 GB writes no
-- byte outside the log and moves neither end of it.
pub log_event_tpm20-IsWithin :
    (s : Log) (es : List Event20) (e : Event20)
    → Logs20 s es
    → length e.event < 2 ^ 32
    → IsWithin s (log_event_tpm20 s e).0
unfolding log_event_tpm20
log_event_tpm20-IsWithin s es e h short =
    record-IsWithin s (next_record_offset_at s) (event20_bytes e) e.event (omega arith)
      (omega (arith, h.at_end)) h.within h.wide short

module _ (e : EventLogTag) (s : Log) where
  abbrev wiped_then : List ℕ → List ℕ → Memory
  wiped_then header id =
      store (store (memset s.memory s.ptr_current 0 e.size) s.ptr_current header)
        (s.ptr_current + length header) id

  wiped_outside :
      (header id : List ℕ) (x : ℕ)
      → length header + length id ≤ e.size
      → (x < s.ptr_current) ⊎ (s.ptr_current + e.size ≤ x)
      → wiped_then header id x ≡ s.memory x
  wiped_outside header id x fits o =
      store-Outside (store (memset s.memory s.ptr_current 0 e.size) s.ptr_current header)
        (s.ptr_current + length header) id x (omega arith)
      ∙ (store-Outside (memset s.memory s.ptr_current 0 e.size) s.ptr_current header x (omega arith)
          ∙ memset-Outside s.memory s.ptr_current 0 e.size x (omega arith))

  -- The header is written inside the log.
  pub write_header-IsWithin :
      (family : Family) → IsPlaced family e s → IsWithin s (write_header family e s)
  write_header-IsWithin tpm12 (b, l, m, w) = rw (write_header12 e s (b, l, m, w)) (record {
    base = refl;
    top = refl;
    outside = λ x o.
        wiped_outside (header12_bytes 0 ev_no_action (replicate 20 0) 73) (spec_id12_bytes e.size) x
          (omega arith) (omega arith);
  })
  write_header-IsWithin tpm20 (b, l, m, w) = rw (write_header20 e s (b, l, m, w)) (record {
    base = refl;
    top = refl;
    outside = λ x o.
        wiped_outside (header12_bytes 0 ev_no_action (replicate 20 0) 57)
          (spec_id20_bytes e.address e.size) x (omega arith) (omega arith);
  })
