-- ===== src/EventLog/Entries.antt =====
-- The log as a list of events: the area behind its header holds the events one after another, and
-- the offset in the header points behind the last.
use Prim.Native.Nat.{ℕ}
use mathlib.Core.List.{append_assoc, append-nil}
use secure_kernel_loader.Base.{
  ◌+◌, ◌^◌, ◌≤◌, ◌<◌, ◌≡◌, refl, sym, ◌∙◌, ap, ◌⊎◌, inl, inr, List, [], ◌∷◌, ◌++◌, arith, length,
  length-append, u32, le32,
}
use secure_kernel_loader.Base.Memory.{
  Memory, load, load32, store, load-append, load-store, load-store_outside, load32-store,
  load32-store_outside,
}
use secure_kernel_loader.EventLog.{
  Log, log_event_tpm12, log_event_tpm20, next_event_offset_at, next_record_offset_at,
}
use secure_kernel_loader.EventLog.Records.{Event12, Event20, event12_bytes, event20_bytes}
use secure_kernel_loader.EventLog.Write.{appended, log_record_fits, log_record_full}

-- The bytes lie at `first`, the log goes on behind them, and the word at `field` is `origin` more
-- than their number.
pub record Holds (first field origin : ℕ) (s : Log) (bytes : List ℕ) : Type 0 where
  pub at_end : s.ptr_current ≡ first + length bytes
  pub within : s.ptr_current ≤ s.limit
  pub wide : s.limit < 2 ^ 64
  pub apart : field + 4 ≤ first
  pub content : load s.memory first (length bytes) ≡ bytes
  pub offset : load32 s.memory field ≡ u32 (origin + length bytes)

module _ (first field origin : ℕ) (s : Log) (bytes : List ℕ) (h : Holds first field origin s bytes)
    (new : List ℕ) (fits : s.ptr_current + length new < s.limit) where
  moved : Memory
  moved = store s.memory field (le32 (u32 (load32 s.memory field + length new)))

  kept : load (store moved s.ptr_current new) first (length bytes) ≡ bytes
  unfolding moved
  kept =
      load-store_outside moved s.ptr_current new first (length bytes) (omega arith)
      ∙ (load-store_outside s.memory field _ first (length bytes) (omega arith) ∙ h.content)

  added : load (store moved s.ptr_current new) (first + length bytes) (length new) ≡ new
  added = rw (← h.at_end) (load-store moved s.ptr_current new)

  pub appended-Holds : Holds first field origin (appended s field new) (bytes ++ new)
  unfolding moved
  appended-Holds = record {
    at_end = omega (arith, h.at_end, length-append bytes new);
    within = omega (arith, fits);
    wide = h.wide;
    apart = h.apart;
    content = rw (length-append bytes new, load-append, kept, added) refl;
    offset =
        load32-store_outside moved s.ptr_current new field (omega (arith, h.apart, h.at_end))
        ∙ (load32-store s.memory field _ ∙ omega (arith, h.offset, length-append bytes new));
  }

abbrev pub entry12 : Event12 → List ℕ
entry12 e = event12_bytes e ++ e.event

abbrev pub entry20 : Event20 → List ℕ
entry20 e = event20_bytes e ++ e.event

abbrev pub entries {ℓ} : {A : Type ℓ} → (A → List ℕ) → List A → List ℕ
entries entry [] = []
entries entry (e ∷ es) = entry e ++ entries entry es

pub entries_snoc {ℓ} :
    {A : Type ℓ} (entry : A → List ℕ) (es : List A) (e : A)
    → entries entry (es ++ e ∷ []) ≡ entries entry es ++ entry e
entries_snoc entry [] e = append-nil (entry e)
entries_snoc entry (x ∷ es) e =
    ap (◌++◌ (entry x)) (entries_snoc entry es e)
    ∙ sym (append_assoc (entry x) (entries entry es) (entry e))

-- The TPM 1.2 log holds the events: they begin 105 bytes behind the base, and the offset at byte
-- 101 counts from the container's header, 48 bytes before them.
abbrev pub Logs12 : Log → List Event12 → Type 0
Logs12 s es = Holds (s.evtlog_base + 105) (next_event_offset_at s) 48 s (entries entry12 es)

-- The TPM 2.0 log holds the events: they begin 89 bytes behind the base, from which the offset at
-- byte 85 counts.
abbrev pub Logs20 : Log → List Event20 → Type 0
Logs20 s es = Holds (s.evtlog_base + 89) (next_record_offset_at s) 89 s (entries entry20 es)

-- The outcome of a call on a log with a view: the event is appended to the log if it and one more
-- byte fit, and otherwise nothing changes and the result is 1.
abbrev pub Appends {ℓ} :
    {A : Type ℓ} → (Log → List A → Type 0) → (A → List ℕ) → Log → List A → A → Log × ℕ → Type 0
Appends Logs entry s es e r =
    ((s.ptr_current + length (entry e) < s.limit) × (r.1 ≡ 0) × Logs r.0 (es ++ e ∷ []))
    ⊎ ((s.limit ≤ s.ptr_current + length (entry e)) × (r ≡ (s, 1)))

pub le-or-lt : (a b : ℕ) → (a < b) ⊎ (b ≤ a)
le-or-lt a b = omega arith

-- On a TPM 1.2 log that holds a list of events, log_event_tpm12 with a text below 4 GB appends the
-- event to the list if it and one byte more fit, and otherwise returns 1 and changes nothing.
pub log_event_tpm12-Appends :
    (s : Log) (es : List Event12) (e : Event12)
    → Logs12 s es
    → length e.event < 2 ^ 32
    → Appends Logs12 entry12 s es e (log_event_tpm12 s e)
unfolding log_event_tpm12
log_event_tpm12-Appends s es e h short =
    elim (le-or-lt (s.ptr_current + length (entry12 e)) s.limit) [
      | inl fits ↦
          rw
            (log_record_fits s (next_event_offset_at s) (event12_bytes e) e.event h.within h.wide
              short fits)
            (inl (
              fits,
              refl,
              rw (entries_snoc entry12 es e) (
                  appended-Holds (s.evtlog_base + 105) (next_event_offset_at s) 48 s
                    (entries entry12 es) h (entry12 e) fits),
            ))
      | inr full ↦ inr (
        full,
        log_record_full s (next_event_offset_at s) (event12_bytes e) e.event h.within h.wide short
            full,
      )
    ]

-- On a TPM 2.0 log that holds a list of events, log_event_tpm20 with a text below 4 GB appends the
-- event to the list if it and one byte more fit, and otherwise returns 1 and changes nothing.
pub log_event_tpm20-Appends :
    (s : Log) (es : List Event20) (e : Event20)
    → Logs20 s es
    → length e.event < 2 ^ 32
    → Appends Logs20 entry20 s es e (log_event_tpm20 s e)
unfolding log_event_tpm20
log_event_tpm20-Appends s es e h short =
    elim (le-or-lt (s.ptr_current + length (entry20 e)) s.limit) [
      | inl fits ↦
          rw
            (log_record_fits s (next_record_offset_at s) (event20_bytes e) e.event h.within h.wide
              short fits)
            (inl (
              fits,
              refl,
              rw (entries_snoc entry20 es e) (
                  appended-Holds (s.evtlog_base + 89) (next_record_offset_at s) 89 s
                    (entries entry20 es) h (entry20 e) fits),
            ))
      | inr full ↦ inr (
        full,
        log_record_full s (next_record_offset_at s) (event20_bytes e) e.event h.within h.wide short
            full,
      )
    ]
