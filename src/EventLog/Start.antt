-- ===== src/EventLog/Start.antt =====
-- event_log_init as a whole: its result is a log that is shut, or a log apart from the SLB.
use secure_kernel_loader.Base.{
  ℕ, ◌+◌, ◌^◌, ◌≤◌, ◌<◌, ◌≡◌, refl, ◌∙◌, ap, sym, false, ◌∷◌, ◌⊎◌, inl, inr, [], arith, length, u32,
  some, Option, true, Bool-cases, Option-cases, ltb, ◌==◌,
}
use mathlib.Core.Path.{subst, ap₂}
use secure_kernel_loader.Base.Memory.{Memory, load, load32}
use secure_kernel_loader.Tags.{
  Image, EventLogTag, event_log_tag, slb_size, next_of_type, only_where, skl_tag_skl_hash,
  skl_tag_event_log,
}
use secure_kernel_loader.Tpm.Types.{Family, tpm12, tpm20}
use secure_kernel_loader.EventLog.{Log}
use secure_kernel_loader.EventLog.Records.{Event20}
use secure_kernel_loader.EventLog.Init.{
  write_header, min_size, event_log_init, init_at, init_tag, log_skinit, log_sha1, log_both,
  skinit_text, disjoint_slb, find_sha1, find_both,
}
use secure_kernel_loader.EventLog.Header.{IsPlaced, write_header-Logs12, write_header-Logs20}
use secure_kernel_loader.EventLog.Entries.{Logs12, Logs20}
use secure_kernel_loader.EventLog.Kept.{
  Logs, entry, log_event, log_event-Appends, log_event-IsWithin,
}
use secure_kernel_loader.EventLog.Headed.{
  header_of, header_size, headed_memory, write_header-memory, header-load, log_event-before,
}
use secure_kernel_loader.EventLog.Skinit.{
  IsSkinit, IsSha1, IsBoth, IsStarted, find_sha1-IsSha1, find_both-IsBoth,
}
use secure_kernel_loader.EventLog.Safety.{IsShut, IsWithin, write_header-IsWithin}

abbrev skinit12 : Memory → ℕ → Event20
skinit12 m digest = record { pcr = 17; sha1 = load m digest 20; sha256 = []; event = skinit_text }

abbrev skinit20 : Memory → ℕ → ℕ → Event20
skinit20 m sha1 sha256 = record {
  pcr = 17;
  sha1 = load m sha1 20;
  sha256 = load m sha256 32;
  event = skinit_text;
}

entry12-length : (m : Memory) (d : ℕ) → length (entry tpm12 (skinit12 m d)) ≡ 38
unfolding load
entry12-length m d = refl

entry20-length : (m : Memory) (d k : ℕ) → length (entry tpm20 (skinit20 m d k)) ≡ 78
unfolding load
entry20-length m d k = refl

-- What logging SKINIT to the log s gives: the event, in the log, and the header as it was.
abbrev IsLogged : Image → ℕ → Family → Log → Log × ℕ → Type 0
IsLogged img fuel family s r =
    IsStarted img fuel s.memory family r.0 r.1
    × IsWithin s r.0
    × (load r.0.memory s.evtlog_base (header_size family)
        ≡ load s.memory s.evtlog_base (header_size family))

unchanged : (s : Log) → IsWithin s s
unchanged s = record { base = refl; top = refl; outside = λ x o. refl }

module _ (img : Image) (fuel : ℕ) (s : Log) where
  -- An event that fits is the one in the log.
  appended_first :
      (family : Family) (e : Event20)
      → Logs family s []
      → length e.event < 2 ^ 32
      → s.ptr_current + length (entry family e) < s.limit
      → IsSkinit img fuel s.memory family (e ∷ []) 0
      → IsLogged img fuel family s (log_event family s e)
  appended_first family e logs short room skinit = (
    elim (log_event-Appends family s [] e logs short) [
      | inl (fits, ok, logs') ↦
          (e ∷ [], subst (IsSkinit img fuel s.memory family (e ∷ [])) (sym ok) skinit, logs')
      | inr (full, ok) ↦ absurd (omega arith)
    ],
    log_event-IsWithin family s [] e logs short,
    log_event-before family s [] e logs short,
  )

  log_sha1-IsLogged :
      (d : ℕ)
      → Logs tpm12 s []
      → s.ptr_current + 38 < s.limit
      → IsSha1 img fuel s.memory d
      → IsLogged img fuel tpm12 s (log_sha1 s d)
  unfolding log_sha1
  log_sha1-IsLogged d logs room (inl (h, hs, seen, before, first, e)) =
      let found : (d == 0) ≡ false = ground (arith, e) in
      rw (found, e)
        (appended_first tpm12 (skinit12 s.memory (h + 4)) logs (omega arith)
          (omega (arith, entry12-length s.memory (h + 4)))
          (inl (h, hs, seen, before, first, refl, refl)))
  log_sha1-IsLogged d logs room (inr (hs, all, missing, e)) =
      rw e (([], inr (hs, all, missing, refl, refl), logs), unchanged s, refl)

  log_both-IsLogged :
      (d : ℕ × ℕ)
      → Logs tpm20 s []
      → s.ptr_current + 78 < s.limit
      → IsBoth img fuel s.memory d
      → IsLogged img fuel tpm20 s (log_both s d)
  unfolding log_both
  log_both-IsLogged d logs room (inl (h, hs, a, b, seen, short, first, second, e)) =
      let found : (a + 4 == 0) ≡ false = ground arith in
      rw (e, found)
        (appended_first tpm20 (skinit20 s.memory (a + 4) (b + 4)) logs (omega arith)
          (omega (arith, entry20-length s.memory (a + 4) (b + 4)))
          (inl (h, hs, a, b, seen, short, first, second, refl, refl)))
  log_both-IsLogged d logs room (inr (hs, all, short, e)) =
      rw e (([], inr (hs, all, short, refl, refl), logs), unchanged s, refl)

-- The log behind its header, and after SKINIT was logged to it.
started :
    (img : Image) (fuel : ℕ) (family : Family) (e : EventLogTag) (s : Log) (r : Log × ℕ)
    → IsPlaced family e s
    → log_skinit img fuel family (write_header family e s) ≡ some r
    → IsLogged img fuel family (write_header family e s) r
unfolding log_skinit
started img fuel tpm12 e s r p h = elim (Option-cases found) [
  | inl n ↦ absurd (ground (arith, n))
  | inr (d, f) ↦
      let same : log_sha1 k d ≡ r = ground (arith, f) in
      subst (IsLogged img fuel tpm12 k) same (
        log_sha1-IsLogged img fuel k d logs room
          (find_sha1-IsSha1 img fuel k.memory fuel [] _ d tt refl refl f))
]
  where
    k : Log
    k = write_header tpm12 e s

    found : Option ℕ
    found =
        find_sha1 img k.memory fuel fuel
          (next_of_type img k.memory fuel img.data_at skl_tag_skl_hash)

    logs : Logs12 k []
    logs = write_header-Logs12 e s p

    room : k.ptr_current + 38 < k.limit
    room = omega (
      arith,
      logs.at_end,
      (write_header-IsWithin e s tpm12 p).base,
      (write_header-IsWithin e s tpm12 p).top,
      p,
    )
started img fuel tpm20 e s r p h = elim (Option-cases found) [
  | inl n ↦ absurd (ground (arith, n))
  | inr (d, f) ↦
      let same : log_both k d ≡ r = ground (arith, f) in
      subst (IsLogged img fuel tpm20 k) same (
        log_both-IsLogged img fuel k d logs room
          (find_both-IsBoth img fuel k.memory fuel [] _ d tt (inl refl) refl f))
]
  where
    k : Log
    k = write_header tpm20 e s

    found : Option (ℕ × ℕ)
    found =
        find_both img k.memory fuel fuel 0 0
          (next_of_type img k.memory fuel img.data_at skl_tag_skl_hash)

    logs : Logs20 k []
    logs = write_header-Logs20 e s p

    room : k.ptr_current + 78 < k.limit
    room = omega (
      arith,
      logs.at_end,
      (write_header-IsWithin e s tpm20 p).base,
      (write_header-IsWithin e s tpm20 p).top,
      p,
    )

-- Either the log is shut, memory is as it was and the result is 1; or the log of `size` bytes has its
-- header, and the event of SKINIT as the hash tags have it in the memory behind that, lies wholly
-- below or above the SLB, and no byte outside it was written.
abbrev pub IsSafe : Image → ℕ → Family → Log → Log × ℕ → Type 0
IsSafe img fuel family s r =
    (IsShut r.0 × (r.0.memory ≡ s.memory) × (r.1 ≡ 1))
    ⊎ ((size : ℕ) × (r.0.limit ≡ r.0.evtlog_base + size)
        × (load r.0.memory r.0.evtlog_base (header_size family)
            ≡ header_of family r.0.evtlog_base size)
        × IsStarted img fuel (headed_memory family s.memory r.0.evtlog_base size) family r.0 r.1
        × ((r.0.limit < img.start) ⊎ (img.start + slb_size < r.0.evtlog_base))
        × ((x : ℕ) → (x < r.0.evtlog_base) ⊎ (r.0.limit ≤ x) → r.0.memory x ≡ s.memory x))

disjoint_lem :
    (img : Image) (lo hi : ℕ)
    → disjoint_slb img lo hi ≡ true
    → (hi < img.start) ⊎ (img.start + slb_size < lo)
disjoint_lem img lo hi h = ground arith

placed-IsSafe :
    (img : Image) (fuel : ℕ) (family : Family) (e : EventLogTag) (s p : Log) (r : Log × ℕ)
    → p.memory ≡ s.memory
    → IsPlaced family e p
    → e.address ≡ p.ptr_current
    → disjoint_slb img p.evtlog_base p.limit ≡ true
    → log_skinit img fuel family (write_header family e p) ≡ some r
    → IsSafe img fuel family s r
placed-IsSafe img fuel family e s p r m placed at apart h =
    let (st, within, before) = started img fuel family e p r placed h in
    let hd = write_header-IsWithin e p family placed in
    let base : r.0.evtlog_base ≡ p.ptr_current = within.base ∙ hd.base ∙ placed.0 in
    let begun : r.0.evtlog_base ≡ (write_header family e p).evtlog_base = within.base in
    let memory : (write_header family e p).memory
        ≡ headed_memory family s.memory r.0.evtlog_base e.size =
      write_header-memory family e p placed at
      ∙ ap₂ (λ (k : Memory) (a : ℕ). headed_memory family k a e.size) m (sym base) in
    inr (
      e.size,
      omega (arith, placed, within.base, within.top, hd.base, hd.top),
      subst
            (λ (a : ℕ).
              load r.0.memory a (header_size family)
              ≡ load (write_header family e p).memory a (header_size family))
            (sym begun) before
          ∙ ap (λ (k : Memory). load k r.0.evtlog_base (header_size family)) memory
          ∙ header-load family s.memory r.0.evtlog_base e.size,
      subst (λ (k : Memory). IsStarted img fuel k family r.0 r.1) memory st,
      omega (
        arith,
        disjoint_lem img p.evtlog_base p.limit apart,
        within.base,
        within.top,
        hd.base,
        hd.top,
      ),
      λ x o.
          within.outside x (omega (arith, within.base, within.top))
          ∙ (hd.outside x (omega (arith, within.base, within.top, hd.base, hd.top))
              ∙ ap (λ (k : Memory). k x) m),
    )

init_at-IsSafe :
    (img : Image) (fuel : ℕ) (family : Family) (s : Log) (e : EventLogTag) (r : Log × ℕ)
    → e.address < 2 ^ 32
    → e.size < 2 ^ 32
    → init_at img fuel family s e ≡ some r
    → IsSafe img fuel family s r
unfolding init_at
init_at-IsSafe img fuel family s e r ha hs h = elim (Bool-cases (ltb e.size (min_size family))) [
  | inl small ↦ inl (ground arith)
  | inr big ↦ elim (Bool-cases (ltb (u32 (e.address + e.size)) e.address)) [
    | inl wraps ↦ inl (ground (arith, big))
    | inr flat ↦ elim (Bool-cases (disjoint_slb img e.address (u32 (e.address + e.size)))) [
      | inl apart ↦
          placed-IsSafe img fuel family e s placed r refl
            (refl, ground (arith, flat), ground (arith, big), omega arith) refl apart
            (ground (arith, big, flat, apart, h))
      | inr meets ↦ inl (ground (arith, big, flat))
    ]
  ]
]
  where
    placed : Log
    placed = record s {
      evtlog_base = e.address;
      ptr_current = e.address;
      limit = u32 (e.address + e.size);
    }

load32-lt : (m : Memory) (a : ℕ) → ((x : ℕ) → m x < 256) → load32 m a < 2 ^ 32
load32-lt m a h = omega (arith, h a, h (a + 1), h (a + 2), h (a + 3))

-- Whatever bytes the bootloader leaves in memory, if event_log_init returns, then either the log
-- is shut, memory is unchanged and the result is 1; or the log lies wholly below or above the SLB,
-- no byte outside it was written, and it begins with the header of the family's specification, up
-- to the offset of the next event. Then, in the memory as it is with that header, the searches for
-- hash tags, each from the one before, either came to a SHA-1 tag with none before it (TPM 1.2),
-- or to a tag with which there is both a SHA-1 and a SHA-256 tag and not before (TPM 2.0): the
-- result is 0, and the log holds one event, SKINIT in PCR 17, with the digest of that tag, or with
-- those of the newest tag of each algorithm; or they ended without: the result is 1, and the log
-- holds no event.
pub event_log_init-IsSafe :
    (img : Image) (fuel : ℕ) (family : Family) (s : Log) (r : Log × ℕ)
    → ((x : ℕ) → s.memory x < 256)
    → event_log_init img fuel family s ≡ some r
    → IsSafe img fuel family s r
unfolding event_log_init init_tag
event_log_init-IsSafe img fuel family s r bytes h =
    elim (Option-cases (only_where img s.memory (λ k. k == skl_tag_event_log) fuel img.data_at)) [
      | inl n ↦ absurd (ground (arith, n))
      | inr (t, f) ↦ elim (Bool-cases (t == 0)) [
        | inl null ↦ inl (ground (arith, f, null))
        | inr tag ↦
            init_at-IsSafe img fuel family s (event_log_tag s.memory t) r
              (load32-lt s.memory (t + 2) bytes) (load32-lt s.memory (t + 6) bytes)
              (ground (arith, f, tag, h))
      ]
    ]
