-- ===== src/Files.antt =====
-- file.h and file.c: swap files and the rewriting of backing files. This file has open files and the
-- system calls on them; Files/Swap has the swap files, Files/Backing has write_offset_update.
pub mod Copy
pub mod Swap
pub mod Backing
pub mod Splice
pub mod Pull
pub mod RoundTrip
pub mod Places
pub mod Search
pub mod Editor
pub mod Push
pub mod Threads
mod Tests
mod ThreadTests
use b_project.Base.{
  ℕ, ◌+◌, ◌-◌, ◌^◌, min, Bool, true, false, Option, none, some, List, [], ◌∷◌, ◌++◌, ltb,
  if◌then◌else◌, length, take, drop, replicate,
}

-- The bytes of a file, and the offset that the descriptor stands at.
pub record OpenFile : Type 0 where
  pub bytes : List ℕ
  pub at : ℕ

-- Offsets and counts from here on are negative for the kernel, which answers EINVAL.
abbrev pub off_limit : ℕ
off_limit = 2 ^ 63

-- (size_t) -1, and what lseek gives when it fails.
abbrev minus_one : ℕ
minus_one = 2 ^ 64 - 1

-- lseek(fd, off, SEEK_SET), its result as a size_t.
unfoldable pub lseek : ℕ → OpenFile → ℕ × OpenFile
lseek off f = if ltb off off_limit then (off, record f { at = off }) else (minus_one, f)

-- write at the offset of the descriptor; a gap behind the end of the file is filled with zeros.
unfoldable pub write : List ℕ → OpenFile → OpenFile
write new f = record {
  bytes =
      take f.at (f.bytes ++ replicate (f.at - length f.bytes) 0)
      ++ new
      ++ drop (f.at + length new) f.bytes;
  at = f.at + length new;
}

-- One call of sendfile: the bytes moved (`none` for -1), the target and the source.
pub record Sent : Type 0 where
  pub moved : Option ℕ
  pub target : OpenFile
  pub source : OpenFile

-- sendfile(out_fd, in_fd, NULL, count) moves at most `most` bytes (Linux: 0x7ffff000, or less on a
-- full disk) and not more than the source has left.
unfoldable pub sendfile : ℕ → OpenFile → OpenFile → ℕ → Sent
sendfile most out inp count =
    let chunk = take (min count most) (drop inp.at inp.bytes) in
    if ltb count off_limit
    then record {
      moved = some (length chunk);
      target = write chunk out;
      source = record inp { at = inp.at + length chunk };
    }
    else record { moved = none; target = out; source = inp }

-- ftruncate
abbrev pub ftruncate : ℕ → OpenFile → OpenFile
ftruncate size f = record f { bytes = take size (f.bytes ++ replicate (size - length f.bytes) 0) }
