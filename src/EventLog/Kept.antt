-- ===== src/EventLog/Kept.antt =====
-- The log under writes elsewhere, and both families' calls of event_log.c as one.
use mathlib.Core.List.{map-append}
use secure_kernel_loader.Base.{
  ℕ, ◌+◌, ◌^◌, ◌≤◌, ◌<◌, ◌≡◌, ap, ◌∙◌, inl, inr, List, [], ◌∷◌, ◌++◌, map, arith, length,
  length-append,
}
use secure_kernel_loader.Base.Memory.{Memory, load_agree, load32}
use secure_kernel_loader.Tpm.Types.{Family, tpm12, tpm20}
use secure_kernel_loader.EventLog.{Log, log_event_tpm12, log_event_tpm20}
use secure_kernel_loader.EventLog.Records.{Event12, Event20}
use secure_kernel_loader.EventLog.Entries.{
  Holds, Logs12, Logs20, entry12, entry20, Appends, log_event_tpm12-Appends,
  log_event_tpm20-Appends, entries_snoc, entries,
}
use secure_kernel_loader.EventLog.Safety.{
  IsWithin, log_event_tpm12-IsWithin, log_event_tpm20-IsWithin,
}

-- The memory reads as before from the log's base to its limit.
abbrev pub Untouched : Log → Memory → Type 0
Untouched s m = (x : ℕ) → s.evtlog_base ≤ x → x < s.limit → m x ≡ s.memory x

Holds-kept :
    (first field origin : ℕ) (s : Log) (bytes : List ℕ) (m : Memory)
    → s.evtlog_base ≤ field
    → Holds first field origin s bytes
    → Untouched s m
    → Holds first field origin (record s { memory = m }) bytes
Holds-kept first field origin s bytes m b h u = record {
  at_end = h.at_end;
  within = h.within;
  wide = h.wide;
  apart = h.apart;
  content =
      load_agree m s.memory first (length bytes)
        (λ x p q. u x (omega (arith, h.apart)) (omega (arith, h.at_end, h.within)))
      ∙ h.content;
  offset = same ∙ h.offset;
}
  where
    byte : (i : ℕ) → i < 4 → m (field + i) ≡ s.memory (field + i)
    byte i l = u (field + i) (omega arith) (omega (arith, h.apart, h.at_end, h.within))

    same : load32 m field ≡ load32 s.memory field
    same =
        let zeroth : m field ≡ s.memory field =
          u field b (omega (arith, h.apart, h.at_end, h.within)) in
        simp (zeroth, byte 1 (omega arith), byte 2 (omega arith), byte 3 (omega arith))

-- What log_event_tpm12 takes of an event that has both digests.
abbrev pub event12 : Event20 → Event12
event12 e = record { pcr = e.pcr; sha1 = e.sha1; event = e.event }

abbrev pub Logs : Family → Log → List Event20 → Type 0
Logs tpm12 s es = Logs12 s (map event12 es)
Logs tpm20 s es = Logs20 s es

abbrev pub entry : Family → Event20 → List ℕ
entry tpm12 e = entry12 (event12 e)
entry tpm20 e = entry20 e

abbrev pub log_event : Family → Log → Event20 → Log × ℕ
log_event tpm12 s e = log_event_tpm12 s (event12 e)
log_event tpm20 s e = log_event_tpm20 s e

pub Logs-kept :
    (f : Family) (s : Log) (es : List Event20) (m : Memory)
    → Logs f s es
    → Untouched s m
    → Logs f (record s { memory = m }) es
Logs-kept tpm12 s es m h u =
    Holds-kept (s.evtlog_base + 105) (s.evtlog_base + 101) 48 s _ m (omega arith) h u
Logs-kept tpm20 s es m h u =
    Holds-kept (s.evtlog_base + 89) (s.evtlog_base + 85) 89 s _ m (omega arith) h u

pub log_event-Appends :
    (f : Family) (s : Log) (es : List Event20) (e : Event20)
    → Logs f s es
    → length e.event < 2 ^ 32
    → Appends (Logs f) (entry f) s es e (log_event f s e)
log_event-Appends tpm12 s es e h short =
    elim (log_event_tpm12-Appends s (map event12 es) (event12 e) h short) [
      | inl (fits, ok, logs) ↦ inl (fits, ok, rw (map-append event12 es (e ∷ [])) logs)
      | inr full ↦ inr full
    ]
log_event-Appends tpm20 s es e h short = log_event_tpm20-Appends s es e h short

pub log_event-IsWithin :
    (f : Family) (s : Log) (es : List Event20) (e : Event20)
    → Logs f s es
    → length e.event < 2 ^ 32
    → IsWithin s (log_event f s e).0
log_event-IsWithin tpm12 s es e h short =
    log_event_tpm12-IsWithin s (map event12 es) (event12 e) h short
log_event-IsWithin tpm20 s es e h short = log_event_tpm20-IsWithin s es e h short

end_snoc {ℓ} :
    {A : Type ℓ} (bytes : A → List ℕ) (first field origin : ℕ) (s k : Log) (es : List A) (e : A)
    → Holds first field origin s (entries bytes es)
    → Holds first field origin k (entries bytes (es ++ e ∷ []))
    → k.ptr_current ≡ s.ptr_current + length (bytes e)
end_snoc bytes first field origin s k es e h g =
    let grown = ap length (entries_snoc bytes es e) ∙ length-append (entries bytes es) (bytes e) in
    omega (arith, h.at_end, g.at_end, grown)

-- Where one event more is held, the log ends so much later.
pub log_ends :
    (f : Family) (s k : Log) (es : List Event20) (e : Event20)
    → k.evtlog_base ≡ s.evtlog_base
    → Logs f s es
    → Logs f k (es ++ e ∷ [])
    → k.ptr_current ≡ s.ptr_current + length (entry f e)
log_ends tpm12 s k es e b h g =
    end_snoc entry12 (s.evtlog_base + 105) (s.evtlog_base + 101) 48 s k (map event12 es) (event12 e)
      h (rw (← b, ← map-append event12 es (e ∷ [])) g)
log_ends tpm20 s k es e b h g =
    end_snoc entry20 (s.evtlog_base + 89) (s.evtlog_base + 85) 89 s k es e h (rw (← b) g)
