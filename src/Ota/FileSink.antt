-- ===== src/Ota/FileSink.antt =====
-- `FileSink` of firmware/housepanel-giga/ota_update.cpp: the sink that stages an image in a file.
pub mod Staging
use house_panel.Base.{ℕ, Bool, true, false, not, ◌&&◌, ◌||◌, ◌==◌, if◌then◌else◌, Bytes, length}
use house_panel.Ota.Crypto.{Sink}

-- What `remove` says: `missing` is ENOENT.
pub data Removal : Type 0 where
  removed missing refused : Removal

-- stdio on the mounted volume: /fs/UPDATE.PART, the one file that is opened, and /fs/UPDATE.BIN.
pub record Files (F : Type 0) : Type 0 where
  pub fopen : F → Bool × F
  pub fwrite : Bytes → F → ℕ × F
  pub fflush : F → Bool × F
  pub fclose : F → Bool × F
  pub remove_bin : F → Removal × F
  pub remove_part : F → F
  pub rename : F → Bool × F

-- `file` is whether the pointer is set.
pub record FileSink (F : Type 0) : Type 0 where
  pub file : Bool
  pub volume : F

module _ {F : Type 0} (v : Files F) where
  unfoldable pub begin_file : FileSink F → Bool × FileSink F
  begin_file s = let (ok, f) = v.fopen s.volume in (ok, record { file = ok; volume = f })

  unfoldable pub write_file : Bytes → FileSink F → Bool × FileSink F
  write_file bytes s =
      if s.file
      then (let (n, f) = v.fwrite bytes s.volume in (n == length bytes, record s { volume = f }))
      else (false, s)

  is_refused : Removal → Bool
  is_refused Removal.removed = false
  is_refused Removal.missing = false
  is_refused Removal.refused = true

  -- From `remove("/fs/UPDATE.BIN")` on.
  replace_bin : F → Bool × FileSink F
  unfolding is_refused
  replace_bin f =
      let (gone, f') = v.remove_bin f in
      if is_refused gone
      then (false, record { file = false; volume = f' })
      else (let (ok, f'') = v.rename f' in (ok, record { file = false; volume = f'' }))

  unfoldable pub finish_file : FileSink F → Bool × FileSink F
  unfolding replace_bin
  finish_file s =
      if s.file
      then (let (flushed, f₁) = v.fflush s.volume in
          let (closed, f₂) = v.fclose f₁ in
          if not flushed || not closed
          then (false, record { file = false; volume = f₂ })
          else replace_bin f₂)
      else (false, s)

  unfoldable pub abort_file : FileSink F → FileSink F
  abort_file s = record {
    file = false;
    volume = v.remove_part (if s.file then (v.fclose s.volume).1 else s.volume);
  }

  abbrev pub file_sink : Sink (FileSink F)
  file_sink = record {
    open_sink = begin_file;
    write = write_file;
    finish = finish_file;
    discard = abort_file;
  }
