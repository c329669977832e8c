-- ===== src/Tags.antt =====
-- include/tags.h: the bootloader's tag list and its iterators, and the test that skl_main makes of it.
-- `start` and `data` are the addresses that the linker gives to _start and bootloader_data.
-- A pointer loop takes fuel, and `none` is a loop that still runs; NULL is the address 0.
pub mod Chain
pub mod Unique
pub mod Check
use secure_kernel_loader.Base.{
  ℕ, zero, suc, ◌+◌, Bool, ◌&&◌, Option, none, some, bit_and, ltb, leb, ◌==◌, ◌/=◌, if◌then◌else◌,
}
use secure_kernel_loader.Base.Memory.{Memory, load16, load32}

abbrev pub skl_tag_class_mask : ℕ
skl_tag_class_mask = 0xF0

abbrev pub skl_tag_end : ℕ
skl_tag_end = 0x00

abbrev pub skl_tag_tags_size : ℕ
skl_tag_tags_size = 0x0F

abbrev pub skl_tag_boot_class : ℕ
skl_tag_boot_class = 0x10

abbrev pub skl_tag_boot_linux : ℕ
skl_tag_boot_linux = 0x10

abbrev pub skl_tag_boot_mb2 : ℕ
skl_tag_boot_mb2 = 0x11

abbrev pub skl_tag_event_log : ℕ
skl_tag_event_log = 0x20

abbrev pub skl_tag_skl_hash : ℕ
skl_tag_skl_hash = 0x21

abbrev pub slb_size : ℕ
slb_size = 0x10000

pub record Image : Type 0 where
  pub start : ℕ
  pub data_at : ℕ

-- The two bytes of struct skl_tag_hdr.
abbrev pub tag_type : Memory → ℕ → ℕ
tag_type m t = m t

abbrev pub tag_len : Memory → ℕ → ℕ
tag_len m t = m (t + 1)

-- struct skl_tag_tags_size: a header, and the size of the whole list.
abbrev pub tags_size : Image → Memory → ℕ
tags_size img m = load16 m (img.data_at + 2)

abbrev pub end_of_tags : Image → Memory → ℕ
end_of_tags img m = img.data_at + tags_size img m

pub record EventLogTag : Type 0 where
  pub address : ℕ
  pub size : ℕ

-- struct skl_tag_evtlog at t.
abbrev pub event_log_tag : Memory → ℕ → EventLogTag
event_log_tag m t = record { address = load32 m (t + 2); size = load32 m (t + 6) }

module _ (img : Image) (m : Memory) where
  unfoldable pub next_tag : ℕ → ℕ
  next_tag t = let x = t + tag_len m t in if ltb x (end_of_tags img m) then x else 0

  -- The loop that next_of_type and next_of_class share, for a test of the tag that it comes to.
  unfoldable pub next_where : (ℕ → Bool) → ℕ → ℕ → Option ℕ
  next_where test zero t = none
  next_where test (suc fuel) t =
      let x = next_tag t in
      let rest = next_where test fuel x in
      if tag_type m t == skl_tag_end
      then some 0
      else if test (tag_type m x)
      then some (if ltb x (end_of_tags img m) then x else 0)
      else rest

  abbrev pub next_of_type : ℕ → ℕ → ℕ → Option ℕ
  next_of_type fuel t type = next_where (λ k. k == type) fuel t

  abbrev pub next_of_class : ℕ → ℕ → ℕ → Option ℕ
  next_of_class fuel t c = next_where (λ k. bit_and k skl_tag_class_mask == c) fuel t

  -- The tag behind t that passes the test if there is exactly one, else NULL: the pair of calls
  -- by which event_log_init finds its tag and skl_main the boot tag.
  sole_where : (ℕ → Bool) → ℕ → Option ℕ → Option ℕ
  sole_where test fuel none = none
  sole_where test fuel (some zero) = some 0
  sole_where test fuel (some (suc t)) = elim (next_where test fuel (suc t)) [
    | none ↦ none
    | some u ↦ some (if u == 0 then suc t else 0)
  ]

  unfoldable pub only_where : (ℕ → Bool) → ℕ → ℕ → Option ℕ
  unfolding sole_where
  only_where test fuel t = sole_where test fuel (next_where test fuel t)

  -- The format test of skl_main, in the order of its condition: false is "Bad bootloader data
  -- format". The tag that it finds is an END tag.
  check_end : Option ℕ → Option Bool
  check_end none = none
  check_end (some t) = some (t /= 0 && (t + tag_len m t == end_of_tags img m))

  unfoldable pub check_format : ℕ → Option Bool
  unfolding check_end
  check_format fuel =
      let t = img.data_at in
      let ended = check_end (next_of_type fuel t skl_tag_end) in
      if (tag_type m t == skl_tag_tags_size)
        && (tag_len m t == 4)
        && leb (end_of_tags img m) (img.start + slb_size)
      then ended
      else some Bool.false
