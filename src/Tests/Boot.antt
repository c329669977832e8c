-- ===== src/Tests/Boot.antt =====
-- A small image with an event log above it, and the theorems on tags and the log at it.
use secure_kernel_loader.Base.{
  ℕ, ◌+◌, ◌<◌, ◌≡◌, refl, Bool, true, Option, none, some, List, [], ◌∷◌, ◌++◌, arith, ltb, ◌&&◌,
  ◌==◌, replicate, le32, Bool-cases, inl, inr, ◌↔◌, ◌⊎◌,
}
use secure_kernel_loader.Base.Memory.{Memory, store, store8, memset}
use secure_kernel_loader.Tags.{next_tag, Image, EventLogTag, next_where, only_where, check_format}
use secure_kernel_loader.Tags.Chain.{IsChain, next_where-find}
use secure_kernel_loader.Tags.Unique.{only_where-sole}
use secure_kernel_loader.Tags.Check.{
  check_format_iff, check_format-Walk, HasFormat, Walk, last, HasNull,
}
use secure_kernel_loader.Tpm.Types.{tpm12, tpm20}
use secure_kernel_loader.EventLog.{Log, log_event_tpm12, log_event_tpm20, log_write}
use secure_kernel_loader.EventLog.Records.{codes, Event12, Event20}
use secure_kernel_loader.EventLog.Init.{
  event_log_init, write_header, init_at, log_skinit, find_sha1,
}
use secure_kernel_loader.EventLog.Entries.{
  Logs12, Logs20, Appends, entry12, entry20, log_event_tpm12-Appends, log_event_tpm20-Appends,
}
use secure_kernel_loader.EventLog.Header.{write_header-Logs12, write_header-Logs20}
use secure_kernel_loader.EventLog.Safety.{shut_refuses}
use secure_kernel_loader.EventLog.Start.{IsSafe, event_log_init-IsSafe}

abbrev img : Image
img = record { start = 64; data_at = 100 }

-- TAGS_SIZE, the log of 256 bytes at 0x20000, a SHA-1 digest, and END.
abbrev tag_bytes : List ℕ
tag_bytes =
    0x0F ∷ 4 ∷ 40 ∷ 0 ∷ 0x20 ∷ 10 ∷ []
    ++ (le32 0x20000 ++ (le32 256 ++ (0x21 ∷ 24 ∷ 4 ∷ 0 ∷ [] ++ (replicate 20 7 ++ 0 ∷ 2 ∷ []))))

unfoldable mem : Memory
unfolding store
mem = store (λ x. 0) 100 tag_bytes

abbrev pub is_bytes : List ℕ → Bool
is_bytes [] = true
is_bytes (b ∷ bs) = ltb b 256 && is_bytes bs

store8-lt : (m : Memory) (a b x : ℕ) → m x < 256 → ltb b 256 ≡ true → store8 m a b x < 256
store8-lt m a b x h p = ground arith

pub store-lt :
    (m : Memory) (a : ℕ) (bs : List ℕ)
    → ((x : ℕ) → m x < 256)
    → is_bytes bs ≡ true
    → (x : ℕ) → store m a bs x < 256
unfolding store
store-lt m a [] h p x = h x
store-lt m a (b ∷ bs) h p x = elim (Bool-cases (ltb b 256)) [
  | inl lt ↦ store-lt (store8 m a b) (a + 1) bs (λ y. store8-lt m a b y (h y) lt) (ground arith) x
  | inr ge ↦ absurd (ground arith)
]

mem-lt : (x : ℕ) → mem x < 256
mem-lt = unfold mem in store-lt (λ x. 0) 100 tag_bytes (λ x. omega arith) refl

abbrev no_log : Log
no_log = record { evtlog_base = 0; ptr_current = 0; limit = 0; memory = mem }

abbrev or_shut : Option (Log × ℕ) → Log × ℕ
or_shut none = (no_log, 1)
or_shut (some r) = r

abbrev begun : Log × ℕ
unfolding event_log_init
begun = or_shut (event_log_init img 8 tpm12 no_log)

begun_lem : event_log_init img 8 tpm12 no_log ≡ some begun
unfolding event_log_init only_where next_where mem next_tag init_at log_skinit find_sha1
    write_header log_write memset
begun_lem = refl

event_log_init-IsSafe_example : IsSafe img 8 tpm12 no_log begun
event_log_init-IsSafe_example = event_log_init-IsSafe img 8 tpm12 no_log begun mem-lt begun_lem

abbrev tags : List ℕ
tags = 104 ∷ 114 ∷ 138 ∷ []

tags-IsChain : IsChain img mem 100 tags
unfolding mem
tags-IsChain = ground arith

next_where-find_example : next_where img mem (λ k. k == 0x21) 8 100 ≡ some 114
unfolding mem
next_where-find_example =
    next_where-find img mem (λ k. k == 0x21) 8 100 tags (omega arith) tags-IsChain

only_where-sole_example : only_where img mem (λ k. k == 0x20) 8 100 ≡ some 104
unfolding mem
only_where-sole_example =
    only_where-sole img mem (λ k. k == 0x20) 8 100 tags (omega arith) tags-IsChain

check_format_iff_example : (check_format img mem 8 ≡ some true) ↔ HasFormat img mem 138
check_format_iff_example = check_format_iff img mem 8 tags (omega arith) tags-IsChain

accepted : check_format img mem 8 ≡ some true
unfolding check_format next_where next_tag mem
accepted = refl

check_format-Walk_example :
    (xs : List ℕ) × Walk img mem 100 xs
    × HasFormat img mem (last 100 xs)
    × (IsChain img mem 100 xs ⊎ HasNull xs)
check_format-Walk_example = check_format-Walk img mem 8 accepted

-- A tag of length zero, and one that runs past the end of a list of 8 bytes.
unfoldable stuck : Memory
unfolding store
stuck = store (λ x. 0) 100 (0x0F ∷ 4 ∷ 8 ∷ 0 ∷ 0x20 ∷ 0 ∷ 0 ∷ 2 ∷ [])

unfoldable long : Memory
unfolding store
long = store (λ x. 0) 100 (0x0F ∷ 4 ∷ 8 ∷ 0 ∷ 0x20 ∷ 10 ∷ 0 ∷ 2 ∷ [])

stuck_runs : next_where img stuck (λ k. k == 0) 8 104 ≡ none
unfolding next_where next_tag stuck
stuck_runs = refl

long_ends : next_where img long (λ k. k == 0x21) 8 104 ≡ some 0
unfolding next_where next_tag long
long_ends = refl

-- The log where event_log_init puts it.
abbrev place : EventLogTag
place = record { address = 0x20000; size = 256 }

abbrev placed : Log
placed = record { evtlog_base = 0x20000; ptr_current = 0x20000; limit = 0x20100; memory = mem }

abbrev hello12 : Event12
hello12 = record { pcr = 17; sha1 = replicate 20 7; event = codes "hello" }

abbrev hello20 : Event20
hello20 = record { pcr = 17; sha1 = replicate 20 7; sha256 = replicate 32 9; event = codes "hello" }

log_event_tpm12-Appends_example :
    Appends Logs12 entry12
      (write_header tpm12 place placed)
      []
      hello12
      (log_event_tpm12 (write_header tpm12 place placed) hello12)
log_event_tpm12-Appends_example =
    log_event_tpm12-Appends (write_header tpm12 place placed) [] hello12
      (write_header-Logs12 place placed (ground arith)) (omega arith)

log_event_tpm20-Appends_example :
    Appends Logs20 entry20
      (write_header tpm20 place placed)
      []
      hello20
      (log_event_tpm20 (write_header tpm20 place placed) hello20)
log_event_tpm20-Appends_example =
    log_event_tpm20-Appends (write_header tpm20 place placed) [] hello20
      (write_header-Logs20 place placed (ground arith)) (omega arith)

shut_refuses_example :
    ((e : Event12) → log_event_tpm12 no_log e ≡ (no_log, 1))
    × ((e : Event20) → log_event_tpm20 no_log e ≡ (no_log, 1))
    × ((bytes : List ℕ) → log_write no_log bytes ≡ (no_log, 1))
shut_refuses_example = shut_refuses no_log refl
