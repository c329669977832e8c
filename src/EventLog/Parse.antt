-- ===== src/EventLog/Parse.antt =====
-- A reader of the log, as one who has the specification of its events would write it, and that it
-- reads back the events that event_log.c has written.
use mathlib.Core.List.{append_assoc}
use secure_kernel_loader.Base.{
  ℕ, zero, suc, ◌+◌, ◌-◌, ◌^◌, ◌≤◌, ◌<◌, ◌≡◌, refl, Option, none, some, List, [], ◌∷◌, ◌++◌, arith,
  length, get_le16, ◌&&◌, ◌==◌, if◌then◌else◌, length-append, take, drop, take_prefix, drop_prefix,
  get_le32, u32, le16, le32, ◌>>=◌,
}
use secure_kernel_loader.Base.Memory.{load, load32}
use secure_kernel_loader.EventLog.{Log}
use secure_kernel_loader.EventLog.Records.{Event12, Event20}
use secure_kernel_loader.EventLog.Entries.{Holds, Logs12, Logs20, entries, entry12, entry20}

-- A text behind its size, and what follows it.
abbrev pub read_text : List ℕ → List ℕ × List ℕ
read_text bytes = let n = get_le32 bytes 0 in (take n (drop 4 bytes), drop n (drop 4 bytes))

-- One event of a TPM 1.2 log, and what follows it; `none` where its type is not the one of Secure
-- Launch.
abbrev pub read_event12 : List ℕ → Option (Event12 × List ℕ)
read_event12 bytes =
    let (text, rest) = read_text (drop 20 (drop 8 bytes)) in
    if get_le32 bytes 4 == 0x502
    then some (record { pcr = get_le32 bytes 0; sha1 = take 20 (drop 8 bytes); event = text }, rest)
    else none

-- One event of a TPM 2.0 log, and what follows it; `none` where its type is not the one of Secure
-- Launch, or where it has not two digests, the first of algorithm 4, SHA-1, and the second of 0xB,
-- SHA-256.
abbrev pub read_event20 : List ℕ → Option (Event20 × List ℕ)
read_event20 bytes =
    let behind = drop 20 (drop 14 bytes) in
    let (text, rest) = read_text (drop 32 (drop 2 behind)) in
    if (get_le32 bytes 4 == 0x502)
      && (get_le32 bytes 8 == 2)
      && (get_le16 bytes 12 == 4)
      && (get_le16 behind 0 == 0xB)
    then some (
      record {
        pcr = get_le32 bytes 0;
        sha1 = take 20 (drop 14 bytes);
        sha256 = take 32 (drop 2 behind);
        event = text;
      },
      rest,
    )
    else none

-- Events until the bytes end.
unfoldable pub read_events :
    {A : Type 0} → (List ℕ → Option (A × List ℕ)) → ℕ → List ℕ → Option (List A)
read_events read fuel [] = some []
read_events read zero (b ∷ bs) = none
read_events read (suc fuel) (b ∷ bs) =
    read (b ∷ bs) >>= λ (e, rest). read_events read fuel rest >>= λ es. some (e ∷ es)

-- What fits the fields of an event.
pub record IsEvent12 (e : Event12) : Type 0 where
  pub pcr : e.pcr < 2 ^ 32
  pub sha1 : length e.sha1 ≡ 20
  pub event : length e.event < 2 ^ 32

pub record IsEvent20 (e : Event20) : Type 0 where
  pub pcr : e.pcr < 2 ^ 32
  pub sha1 : length e.sha1 ≡ 20
  pub sha256 : length e.sha256 ≡ 32
  pub event : length e.event < 2 ^ 32

get_le32-le32 : (x : ℕ) → x < 2 ^ 32 → get_le32 (le32 (u32 x)) 0 ≡ x
get_le32-le32 x h = omega (arith, h)

read_event12-entry12 :
    (e : Event12) (rest : List ℕ) → IsEvent12 e → read_event12 (entry12 e ++ rest) ≡ some (e, rest)
read_event12-entry12 e rest w =
    let pcr : get_le32 (le32 e.pcr) 0 ≡ e.pcr = omega (arith, w.pcr) in
    let tail = le32 (u32 (length e.event)) ++ (e.event ++ rest) in
    rw
      (
        append_assoc,
        append_assoc,
        take_prefix 20 e.sha1 tail w.sha1,
        drop_prefix 20 e.sha1 tail w.sha1,
        pcr,
        get_le32-le32 (length e.event) w.event,
        take_prefix (length e.event) e.event rest refl,
        drop_prefix (length e.event) e.event rest refl,
      )
      refl

read_event20-entry20 :
    (e : Event20) (rest : List ℕ) → IsEvent20 e → read_event20 (entry20 e ++ rest) ≡ some (e, rest)
read_event20-entry20 e rest w =
    let pcr : get_le32 (le32 e.pcr) 0 ≡ e.pcr = omega (arith, w.pcr) in
    let text = le32 (u32 (length e.event)) ++ (e.event ++ rest) in
    let tail = le16 0xB ++ (e.sha256 ++ text) in
    rw
      (
        append_assoc,
        append_assoc,
        append_assoc,
        append_assoc,
        take_prefix 20 e.sha1 tail w.sha1,
        drop_prefix 20 e.sha1 tail w.sha1,
        take_prefix 32 e.sha256 text w.sha256,
        drop_prefix 32 e.sha256 text w.sha256,
        pcr,
        get_le32-le32 (length e.event) w.event,
        take_prefix (length e.event) e.event rest refl,
        drop_prefix (length e.event) e.event rest refl,
      )
      refl

abbrev pub AllEvents : {A : Type 0} → (A → Type 0) → List A → Type 0
AllEvents P [] = Unit {0}
AllEvents P (e ∷ es) = P e × AllEvents P es

module _ {A : Type 0} (read : List ℕ → Option (A × List ℕ)) (entry : A → List ℕ)
    (IsEvent : A → Type 0) (filled : (e : A) → 0 < length (entry e))
    (back : (e : A) (rest : List ℕ) → IsEvent e → read (entry e ++ rest) ≡ some (e, rest)) where
  read_one :
      (fuel : ℕ) (bytes rest : List ℕ) (e : A)
      → 0 < length bytes
      → read bytes ≡ some (e, rest)
      → read_events read (suc fuel) bytes ≡ (read_events read fuel rest >>= λ es. some (e ∷ es))
  unfolding read_events
  read_one fuel [] rest e pos h = absurd (omega arith)
  read_one fuel (b ∷ bs) rest e pos h = rw (read_events, h) refl

  read_events-entries :
      (fuel : ℕ) (es : List A)
      → length (entries entry es) ≤ fuel
      → AllEvents IsEvent es
      → read_events read fuel (entries entry es) ≡ some es
  unfolding read_events
  read_events-entries zero [] h w = refl
  read_events-entries (suc fuel) [] h w = refl
  read_events-entries zero (e ∷ es) h w =
      absurd (omega (arith, filled e, length-append (entry e) (entries entry es)))
  read_events-entries (suc fuel) (e ∷ es) h (w, ws) =
      let n = length-append (entry e) (entries entry es) in
      let shorter = read_events-entries fuel es (omega (arith, filled e, n)) ws in
      rw
        (
          read_one fuel (entry e ++ entries entry es) (entries entry es) e
              (omega (arith, filled e, n)) (back e (entries entry es) w),
          shorter,
        )
        refl

  -- The bytes from the first event on are as many as the word in the log's header says.
  read_log-Holds :
      (first field origin : ℕ) (s : Log) (es : List A)
      → Holds first field origin s (entries entry es)
      → s.limit < 2 ^ 32
      → origin ≤ first
      → AllEvents IsEvent es
      → let n = load32 s.memory field - origin in
        read_events read n (load s.memory first n) ≡ some es
  read_log-Holds first field origin s es h narrow o w =
      let n : load32 s.memory field - origin ≡ length (entries entry es) =
        omega (arith, h.offset, h.at_end, h.within, narrow, o) in
      rw (n, h.content) (read_events-entries (length (entries entry es)) es (omega arith) w)

-- The events between the first one and the end that the offset in the log's header gives.
unfoldable pub read_log12 : Log → Option (List Event12)
unfolding read_events
read_log12 s =
    let n = load32 s.memory (s.evtlog_base + 101) - 48 in
    read_events read_event12 n (load s.memory (s.evtlog_base + 105) n)

unfoldable pub read_log20 : Log → Option (List Event20)
unfolding read_events
read_log20 s =
    let n = load32 s.memory (s.evtlog_base + 85) - 89 in
    read_events read_event20 n (load s.memory (s.evtlog_base + 89) n)

-- On a TPM 1.2 log below 4 GB that holds a list of events whose values fit their fields, a reader
-- of its bytes, which tests the type of each event, from the first event to the end that the
-- offset in the log's header gives, gives exactly these events back.
pub read_log12-Logs12 :
    (s : Log) (es : List Event12)
    → s.limit < 2 ^ 32
    → Logs12 s es
    → AllEvents IsEvent12 es
    → read_log12 s ≡ some es
unfolding read_log12
read_log12-Logs12 s es narrow h w =
    read_log-Holds read_event12 entry12 IsEvent12 (λ e. omega arith) read_event12-entry12
      (s.evtlog_base + 105) (s.evtlog_base + 101) 48 s es h narrow (omega arith) w

-- On a TPM 2.0 log below 4 GB that holds a list of events whose values fit their fields, a reader
-- of its bytes, which tests the type of each event, that it has two digests, and the algorithm of
-- each, from the first event to the end that the offset in the log's header gives, gives exactly
-- these events back.
pub read_log20-Logs20 :
    (s : Log) (es : List Event20)
    → s.limit < 2 ^ 32
    → Logs20 s es
    → AllEvents IsEvent20 es
    → read_log20 s ≡ some es
unfolding read_log20
read_log20-Logs20 s es narrow h w =
    read_log-Holds read_event20 entry20 IsEvent20 (λ e. omega arith) read_event20-entry20
      (s.evtlog_base + 89) (s.evtlog_base + 85) 89 s es h narrow (omega arith) w
