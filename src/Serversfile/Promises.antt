-- ===== src/Serversfile/Promises.antt =====
-- internal/serversfile/serversfile.go: what the readers of the files find after a `Write`.
use gluetun_proton_list_upda.Prelude.{
  ◌<◌, String, Bool, true, false, ◌≡◌, ◌≢◌, refl, sym, ap, ◌∙◌, subst, List, some, ◌==◌, ltb,
  str_eq, str_eq_iff, string_eq, arith,
}
use gluetun_proton_list_upda.Prelude.Table.{find, put, find-put}
use gluetun_proton_list_upda.Platform.{Platform}
use gluetun_proton_list_upda.Serversfile.{
  Layout, legacy, Server, File, FileSystem, provider_path, provider_file_version,
  detect_schema_version, detected, version_in_object,
}
use gluetun_proton_list_upda.Serversfile.Write.{WriteOptions, WriteResult, Written, done, write}
use gluetun_proton_list_upda.Serversfile.Disk.{
  Effect, untouched, half, directory_only, legacy_only, both_files, write-Effect, directory_file,
  whole_file, IsFailure,
}

pub result_failure : (w : Written) (r : WriteResult) → IsFailure w → w ≡ done r → ⊥
result_failure w r h e = subst IsFailure e h

-- the layout of a result, for a failure any
abbrev pub layout_in : Written → Layout
layout_in (done r) = r.layout
layout_in _ = legacy

pub find-put_self : (k : String) (f : File) (fs : FileSystem) → find k (put k f fs) ≡ some f
find-put_self k f fs = ground (arith, find-put k k f fs, str_eq_iff k k)

pub find-put_ne :
    (k j : String) (f : File) (fs : FileSystem) → k ≢ j → find j (put k f fs) ≡ find j fs
find-put_ne k j f fs h = ground (arith, find-put k j f fs, str_eq_iff k j)

module _ (p : Platform) (can : String → Bool) (fs : FileSystem) (servers : List Server)
    (o : WriteOptions) where
  version_not_zero :
      (fs' : FileSystem) (r : WriteResult)
      → write p can fs servers o ≡ (fs', done r)
      → (o.schema_version == 0) ≡ false
  unfolding write
  version_not_zero fs' r e =
      let w : (write p can fs servers o).1 ≡ done r = ap (λ x. x.1) e in ground arith

  -- the directory's file after a write of the directory
  provider_file_after :
      (out : FileSystem × Written) (fs' : FileSystem) (r : WriteResult)
      → out ≡ (fs', done r)
      → r.layout ≢ legacy
      → o.paths.legacy_file ≢ provider_path p o.paths
      → Effect p fs servers o out
      → find (provider_path p o.paths) fs' ≡ some (directory_file servers o)
  provider_file_after out fs' r e hl ha (untouched why f k) =
      absurd (result_failure why r f (ap (λ x. x.1) (sym k ∙ e)))
  provider_file_after out fs' r e hl ha (half why f k) =
      absurd (result_failure why r f (ap (λ x. x.1) (sym k ∙ e)))
  provider_file_after out fs' r e hl ha (directory_only r' l k) =
      ap (find (provider_path p o.paths)) (ap (λ x. x.0) (sym e ∙ k))
      ∙ find-put_self (provider_path p o.paths) (directory_file servers o) fs
  provider_file_after out fs' r e hl ha (legacy_only r' others l m k) =
      absurd (hl (ap (λ x. layout_in x.1) (sym e ∙ k) ∙ l))
  provider_file_after out fs' r e hl ha (both_files r' others l m k) =
      ap (find (provider_path p o.paths)) (ap (λ x. x.0) (sym e ∙ k))
      ∙ find-put_ne o.paths.legacy_file (provider_path p o.paths) (whole_file servers o others)
          (put (provider_path p o.paths) (directory_file servers o) fs) ha
      ∙ find-put_self (provider_path p o.paths) (directory_file servers o) fs

  version_of_provider_file :
      (fs : FileSystem)
      → find (provider_path p o.paths) fs ≡ some (directory_file servers o)
      → (o.schema_version == 0) ≡ false
      → o.schema_version < 65536
      → provider_file_version fs (provider_path p o.paths) ≡ detected o.schema_version
  unfolding provider_file_version find
  version_of_provider_file fs e z v =
      let fits : ltb o.schema_version 65536 ≡ true = ground arith in
      ap version_in_object e ∙ rw fits (rw z refl)

  detect_of_provider_file :
      (fs : FileSystem)
      → o.paths.directory_path ≢ ""
      → provider_file_version fs (provider_path p o.paths) ≡ detected o.schema_version
      → detect_schema_version p fs o.paths ≡ detected o.schema_version
  unfolding detect_schema_version
  detect_of_provider_file fs d e =
      let off : str_eq o.paths.directory_path "" ≡ false =
        ground (arith, str_eq_iff o.paths.directory_path "") in
      rw (off, detect_schema_version) (rw (e, detect_schema_version) refl)

  -- After a successful write of the directory layout, with or without the legacy file, and of a
  -- version of 16 bits, the schema version that is detected is the one written, whatever happens to
  -- every other file than the provider's. The directory is configured, and the legacy file is
  -- another one than the provider's.
  pub write_detected :
      (fs' fs'' : FileSystem) (r : WriteResult)
      → write p can fs servers o ≡ (fs', done r)
      → r.layout ≢ legacy
      → o.schema_version < 65536
      → o.paths.directory_path ≢ ""
      → o.paths.legacy_file ≢ provider_path p o.paths
      → find (provider_path p o.paths) fs'' ≡ find (provider_path p o.paths) fs'
      → detect_schema_version p fs'' o.paths ≡ detected o.schema_version
  write_detected fs' fs'' r e l v d a same = detect_of_provider_file fs'' d (
      version_of_provider_file fs''
        (same ∙ provider_file_after _ fs' r e l a (write-Effect can servers o p fs))
        (version_not_zero fs' r e) v)
