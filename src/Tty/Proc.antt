-- ===== src/Tty/Proc.antt =====
-- `tiny_read_proc` of tty/tiny_tty.c: a window of the text of /proc/tty/driver/tiny_tty. The text of
-- a port is a parameter, and positions are numbers that fit an `off_t`.
pub mod Window
use linux_device_driver.Common.{
  ℕ, ◌+◌, ◌-◌, Bool, true, false, Option, none, some, List, [], ◌∷◌, ◌++◌, if◌then◌else◌, ltb, leb,
  length, take, drop, min,
}

-- The bytes printed at the start of the page, and how much of the text was printed before them;
-- whether `*eof` is set.
pub record Printed : Type 0 where
  pub page : List ℕ
  pub begin : ℕ
  pub eof : Bool

module _ (page_size off count : ℕ) where
  -- The loop over the table, with the text of each port that is there.
  unfoldable pub print_ports : List (Option (List ℕ)) → List ℕ → ℕ → Printed
  print_ports [] page begin = record { page = page; begin = begin; eof = true }
  print_ports (none ∷ ports) page begin =
      let rest = print_ports ports page begin in
      if ltb (length page) page_size
      then rest
      else record { page = page; begin = begin; eof = true }
  print_ports (some line ∷ ports) page begin =
      let page' = page ++ line in
      let stop : Printed = record { page = page'; begin = begin; eof = false } in
      let skip = print_ports ports [] (begin + length page') in
      let keep = print_ports ports page' begin in
      if ltb (length page) page_size
      then (if ltb (off + count) (length page' + begin)
          then stop
          else if ltb (length page' + begin) off
          then skip
          else keep)
      else record { page = page; begin = begin; eof = true }

  -- The bytes that the file delivers, from `*start` on, and `*eof`.
  unfoldable pub tiny_read_proc : (heading : List ℕ) → List (Option (List ℕ)) → List ℕ × Bool
  tiny_read_proc heading ports =
      let p = print_ports ports heading 0 in
      let all = length p.page + p.begin in
      if leb all off
      then ([], p.eof)
      else (take (min count (all - off)) (drop (off - p.begin) p.page), p.eof)
