-- ===== src/Ota/FileSink/Staging.antt =====
-- `FileSink` (ota_update.cpp) as the sink that OtaReceiver relies on, and the image that was staged
-- before.
use house_panel.Base.{
  ◌≡◌, refl, inl, inr, Bool, true, false, [], ◌++◌, arith, Bytes, length, Bool-cases, if_both, ◌⊎◌,
}
use house_panel.Ota.Receiver.Session.{Stores}
use house_panel.Ota.FileSink.{
  Removal, Files, FileSink, begin_file, write_file, is_refused, replace_bin, finish_file,
  abort_file, file_sink,
}

-- What the volume promises: an open file holds what was written to it, closing it keeps that, a file
-- that is removed leaves the other, and a renamed one is the new target.
pub record Volume {F : Type 0} (v : Files F) : Type 1 where
  pub Part : F → Bytes → Type 0
  pub Closed : F → Bytes → Type 0
  pub Staged : F → Bytes → Type 0
  pub fopen_lem : (s t : F) → v.fopen s ≡ (true, t) → Part t []
  pub fwrite_lem :
      (s t : F) (xs ys : Bytes) → Part s xs → v.fwrite ys s ≡ (length ys, t) → Part t (xs ++ ys)
  pub fflush_lem : (s t : F) (xs : Bytes) → Part s xs → v.fflush s ≡ (true, t) → Part t xs
  pub fclose_lem : (s t : F) (xs : Bytes) → Part s xs → v.fclose s ≡ (true, t) → Closed t xs
  pub removed_lem :
      (s t : F) (xs : Bytes) → Closed s xs → v.remove_bin s ≡ (Removal.removed, t) → Closed t xs
  pub missing_lem :
      (s t : F) (xs : Bytes) → Closed s xs → v.remove_bin s ≡ (Removal.missing, t) → Closed t xs
  pub rename_lem : (s t : F) (xs : Bytes) → Closed s xs → v.rename s ≡ (true, t) → Staged t xs

module _ {F : Type 0} (v : Files F) (o : Volume v) where
  open o use {Part, Closed, Staged}

  abbrev pub Holds : FileSink F → Bytes → Type 0
  Holds s xs = (s.file ≡ true) × Part s.volume xs

  pub begin-Holds : (s t : FileSink F) → begin_file v s ≡ (true, t) → Holds t []
  unfolding begin_file
  begin-Holds s t e = (ground arith, o.fopen_lem s.volume t.volume (ground arith))

  pub write-Holds :
      (s t : FileSink F) (xs ys : Bytes)
      → Holds s xs
      → write_file v ys s ≡ (true, t)
      → Holds t (xs ++ ys)
  unfolding write_file
  write-Holds s t xs ys h e =
      (ground arith, o.fwrite_lem s.volume t.volume xs ys h.1 (ground arith))

  remove-Closed :
      (s t : F) (xs : Bytes) (r : Removal)
      → Closed s xs
      → v.remove_bin s ≡ (r, t)
      → is_refused v r ≡ false
      → Closed t xs
  unfolding is_refused
  remove-Closed s t xs Removal.removed h e n = o.removed_lem s t xs h e
  remove-Closed s t xs Removal.missing h e n = o.missing_lem s t xs h e
  remove-Closed s t xs Removal.refused h e n = cc

  replace-Staged :
      (f : F) (t : FileSink F) (xs : Bytes)
      → Closed f xs
      → replace_bin v f ≡ (true, t)
      → Staged t.volume xs
  unfolding replace_bin
  replace-Staged f t xs h e = elim (Bool-cases (is_refused v (v.remove_bin f).0)) [
    | inl no_file ↦ ground arith
    | inr gone ↦
        o.rename_lem (v.remove_bin f).1 t.volume xs
          (remove-Closed f (v.remove_bin f).1 xs (v.remove_bin f).0 h refl gone) (ground arith)
  ]

  pub finish-Staged :
      (s t : FileSink F) (xs : Bytes)
      → Holds s xs
      → finish_file v s ≡ (true, t)
      → Staged t.volume xs
  unfolding finish_file
  finish-Staged s t xs h e =
      let flushed = o.fflush_lem s.volume (v.fflush s.volume).1 xs h.1 (ground arith) in
      replace-Staged (v.fclose (v.fflush s.volume).1).1 t xs
        (o.fclose_lem (v.fflush s.volume).1 (v.fclose (v.fflush s.volume).1).1 xs flushed
          (ground arith))
        (ground arith)

  -- The sink of the receiver, with a volume behind it.
  abbrev pub file_sink_stores : Stores (file_sink v)
  file_sink_stores = record {
    Holds = Holds;
    Published = λ s xs. Staged s.volume xs;
    open_lem = begin-Holds;
    write_lem = write-Holds;
    finish_lem = finish-Staged;
  }

-- The volume keeps the staged file under the calls that are not about it.
pub record Separate {F : Type 0} (v : Files F) (Staged : F → Bytes → Type 0) : Type 0 where
  pub fopen_keeps : (s : F) (xs : Bytes) → Staged s xs → Staged (v.fopen s).1 xs
  pub fwrite_keeps : (s : F) (ys xs : Bytes) → Staged s xs → Staged (v.fwrite ys s).1 xs
  pub fflush_keeps : (s : F) (xs : Bytes) → Staged s xs → Staged (v.fflush s).1 xs
  pub fclose_keeps : (s : F) (xs : Bytes) → Staged s xs → Staged (v.fclose s).1 xs
  pub remove_part_keeps : (s : F) (xs : Bytes) → Staged s xs → Staged (v.remove_part s) xs

module _ {F : Type 0} (v : Files F) (Staged : F → Bytes → Type 0) (p : Separate v Staged) where
  -- An image that was staged before is still staged after `begin`, after a `write`, after `abort`, and
  -- after a `finish` with no open file or whose flush or close fails, whatever these calls return.
  pub staged_kept :
      (s : FileSink F) (old bytes : Bytes)
      → Staged s.volume old
      → Staged (begin_file v s).1.volume old
        × Staged (write_file v bytes s).1.volume old
        × Staged (abort_file v s).volume old
        × ((s.file ≡ false)
              ⊎ ((v.fflush s.volume).0 ≡ false)
              ⊎ ((v.fclose (v.fflush s.volume).1).0 ≡ false)
            → ((finish_file v s).0 ≡ false) × Staged (finish_file v s).1.volume old)
  unfolding begin_file write_file abort_file finish_file
  staged_kept s old bytes h = (
    p.fopen_keeps s.volume old h,
    if_both (λ (q : Bool × FileSink F). Staged q.1.volume old) s.file _ _
        (p.fwrite_keeps s.volume bytes old h) h,
    p.remove_part_keeps _ old
        (if_both (λ f. Staged f old) s.file _ _ (p.fclose_keeps s.volume old h) h),
    λ failed.
        let closed = p.fclose_keeps (v.fflush s.volume).1 old (p.fflush_keeps s.volume old h) in
        ground arith,
  )
