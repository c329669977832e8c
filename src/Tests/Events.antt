-- ===== src/Tests/Events.antt =====
-- A log with one event of each family, read back, and the measurements behind it.
use secure_kernel_loader.Base.{◌≡◌, refl, some, [], ◌∷◌, arith, replicate, inl, inr, ◌<◌, ◌^◌}
use secure_kernel_loader.Tags.{EventLogTag}
use secure_kernel_loader.Tpm.Types.{tpm12, tpm20}
use secure_kernel_loader.EventLog.{Log, log_write, log_record, log_event_tpm12, log_event_tpm20}
use secure_kernel_loader.EventLog.Records.{Event12, Event20, codes}
use secure_kernel_loader.EventLog.Init.{write_header}
use secure_kernel_loader.EventLog.Entries.{
  Logs12, Logs20, log_event_tpm12-Appends, log_event_tpm20-Appends,
}
use secure_kernel_loader.EventLog.Header.{write_header-Logs12, write_header-Logs20}
use secure_kernel_loader.EventLog.Parse.{
  read_log12, read_log20, read_log12-Logs12, read_log20-Logs20,
}

abbrev hello12 : Event12
hello12 = record { pcr = 17; sha1 = replicate 20 7; event = codes "hello" }

abbrev hello20 : Event20
hello20 = record { pcr = 17; sha1 = replicate 20 7; sha256 = replicate 32 9; event = codes "hello" }

abbrev place : EventLogTag
place = record { address = 0x20000; size = 256 }

abbrev placed : Log
placed = record { evtlog_base = 0x20000; ptr_current = 0x20000; limit = 0x20100; memory = λ x. 0 }

abbrev one12 : Log
one12 = (log_event_tpm12 (write_header tpm12 place placed) hello12).0

one12-Logs12 : Logs12 one12 (hello12 ∷ [])
unfolding write_header log_write log_event_tpm12
one12-Logs12 =
    elim (log_event_tpm12-Appends (write_header tpm12 place placed) [] hello12
      (write_header-Logs12 place placed (ground arith)) (omega arith)) [
        | inl (fits, ok, logs) ↦ logs
        | inr (full, same) ↦ absurd (omega (arith, full))
      ]

one12-limit : one12.limit < 2 ^ 32
unfolding write_header log_write log_event_tpm12 log_record
one12-limit = omega arith

read_log12-Logs12_example : read_log12 one12 ≡ some (hello12 ∷ [])
read_log12-Logs12_example =
    read_log12-Logs12 one12 (hello12 ∷ []) one12-limit one12-Logs12
      (record { pcr = omega arith; sha1 = refl; event = omega arith }, tt)

abbrev one20 : Log
one20 = (log_event_tpm20 (write_header tpm20 place placed) hello20).0

one20-Logs20 : Logs20 one20 (hello20 ∷ [])
unfolding write_header log_write log_event_tpm20
one20-Logs20 =
    elim (log_event_tpm20-Appends (write_header tpm20 place placed) [] hello20
      (write_header-Logs20 place placed (ground arith)) (omega arith)) [
        | inl (fits, ok, logs) ↦ logs
        | inr (full, same) ↦ absurd (omega (arith, full))
      ]

one20-limit : one20.limit < 2 ^ 32
unfolding write_header log_write log_event_tpm20 log_record
one20-limit = omega arith

read_log20-Logs20_example : read_log20 one20 ≡ some (hello20 ∷ [])
read_log20-Logs20_example =
    read_log20-Logs20 one20 (hello20 ∷ []) one20-limit one20-Logs20
      (record { pcr = omega arith; sha1 = refl; sha256 = refl; event = omega arith }, tt)
