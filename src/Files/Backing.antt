-- ===== src/Files/Backing.antt =====
-- file.c: write_offset_update, which rewrites a backing file from the texts in the swap file.
use b_project.Base.{ℕ, Bool, true, ◌&&◌, Option, none, some, List, [], ◌∷◌, if◌then◌else◌, length}
use b_project.Base.Int.{ℤ, pos, negsuc}
use b_project.Sql.Resize.{OffsetUpdate, sub64}
use b_project.Files.{OpenFile, lseek, sendfile, ftruncate}

-- The state of the loop: the three files, and pos as a size_t.
pub record Copying : Type 0 where
  pub tmp : OpenFile
  pub backing : OpenFile
  pub swp : OpenFile
  pub offset : ℕ

unfoldable pub copy_update : ℕ → OffsetUpdate → Copying → Copying
unfolding lseek sendfile
copy_update most u c =
    let front = sendfile most c.tmp c.backing (sub64 u.backing_start c.offset) in
    let (offset, backing) = lseek u.backing_end front.source in
    let (_, swp) = lseek u.swp_start c.swp in
    let text = sendfile most front.target swp (sub64 u.swp_end u.swp_start) in
    record { tmp = text.target; backing = backing; swp = text.source; offset = offset }

unfoldable pub copy_updates : ℕ → List OffsetUpdate → Copying → Copying
unfolding copy_update
copy_updates most [] c = c
copy_updates most (u ∷ us) c = copy_updates most us (copy_update most u c)

-- What write_offset_update meets.
pub record WriteAnswers : Type 0 where
  pub tmp_opened : Bool
  pub locked : Bool
  pub backing_opened : Bool

-- Its result, the backing file, and whether zkcontext was set when zk_release_lock gets it.
pub record Written : Type 0 where
  pub ret : ℤ
  pub bytes : List ℕ
  pub release_set : Bool

-- What follows the copy back: -1 when it failed, else the file is cut to the new size.
abbrev pub cut : ℕ → OpenFile → Option ℕ → Written
cut size backing none = record { ret = negsuc 0; bytes = backing.bytes; release_set = true }
cut size backing (some n) = record {
  ret = pos 0;
  bytes = (ftruncate size backing).bytes;
  release_set = true;
}

-- From the point of no return on: the temporary file is copied over the backing file.
unfoldable pub copy_back : ℕ → OpenFile → OpenFile → Written
unfolding lseek sendfile
copy_back most tmp backing =
    let size = length tmp.bytes in
    let s = sendfile most (lseek 0 backing).1 (lseek 0 tmp).1 size in cut size s.target s.moved

abbrev start_copying : List ℕ → List ℕ → Copying
start_copying backing swp = record {
  tmp = record { bytes = []; at = 0 };
  backing = record { bytes = backing; at = 0 };
  swp = record { bytes = swp; at = 0 };
  offset = 0;
}

unfoldable pub write_offset_update :
    WriteAnswers → ℕ → List OffsetUpdate → List ℕ → List ℕ → Written
unfolding copy_updates copy_back
write_offset_update a most us backing swp =
    let c = copy_updates most us (start_copying backing swp) in
    let s = sendfile most c.tmp c.backing (sub64 (length backing) c.offset) in
    if a.tmp_opened && a.locked && a.backing_opened
    then copy_back most s.target s.source
    else record { ret = negsuc 0; bytes = backing; release_set = a.tmp_opened }
