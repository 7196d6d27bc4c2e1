-- ===== src/Serversfile/Preserve.antt =====
-- internal/serversfile/serversfile.go: `PreserveOtherProviders`, and the writes that fail.
use gluetun_proton_list_upda.Prelude.{
  String, Bool, true, false, ◌≡◌, ◌≢◌, refl, sym, ap, ◌∙◌, subst, List, ◌∷◌, some, str_eq,
  str_eq_iff, string_eq, inl, inr, arith,
}
use gluetun_proton_list_upda.Prelude.Table.{Table, find}
use gluetun_proton_list_upda.Platform.{Platform}
use gluetun_proton_list_upda.Serversfile.{
  provider, Server, Json, section, directory, fields_of, read_raw_file, is_foreign, FileSystem,
  provider_path,
}
use gluetun_proton_list_upda.Serversfile.Write.{
  kept_fields, WriteOptions, WriteResult, Written, done, section_of, write,
}
use gluetun_proton_list_upda.Serversfile.Disk.{
  Effect, untouched, half, directory_only, legacy_only, both_files, write-Effect, directory_file,
  whole_file, IsFailure,
}
use gluetun_proton_list_upda.Serversfile.Promises.{
  find-put_self, find-put_ne, result_failure, layout_in,
}
use gluetun_proton_list_upda.Serversfile.Foreign.{
  find-foreign_fields, kept_fields-put, kept_fields-cases,
}

-- the keys that a file holds for others, in two states of the disk
abbrev pub IsPreserved : FileSystem → FileSystem → String → List Server → WriteOptions → Type 0
IsPreserved fs fs' path servers o =
    (old : Table String Json) × (new : Table String Json) × (read_raw_file fs path ≡ some old)
    × (read_raw_file fs' path ≡ some new)
    × (find provider new ≡ some (section (section_of servers o)))
    × ((name : String) → is_foreign name ≡ true → find name new ≡ find name old)

find-whole_file :
    (name : String) (v w : Json) (others : Table String Json)
    → is_foreign name ≡ true
    → find name ((provider, v) ∷ ("version", w) ∷ others) ≡ find name others
unfolding find
find-whole_file name v w others h =
    let a : str_eq provider name ≡ false =
      ground (arith, str_eq_iff provider name, str_eq_iff name provider) in
    let b : str_eq "version" name ≡ false =
      ground (arith, str_eq_iff "version" name, str_eq_iff name "version") in
    rw (a, find) (rw (b, find) refl)

whole_file-IsPreserved :
    (fs fs' : FileSystem) (path : String) (servers : List Server) (o : WriteOptions)
    (others : Table String Json)
    → o.preserve_other_providers ≡ true
    → kept_fields o.preserve_other_providers fs path ≡ some others
    → find path fs' ≡ some (whole_file servers o others)
    → IsPreserved fs fs' path servers o
unfolding read_raw_file find
whole_file-IsPreserved fs fs' path servers o others on k e =
    elim (kept_fields-cases o.preserve_other_providers fs path others k) [
      | inl (off, _) ↦ cc
      | inr (_, fields, was, eq) ↦ (
        fields,
        _,
        was,
        ap fields_of e,
        refl,
        λ name h.
            find-whole_file name _ _ others h
            ∙ ap (find name) eq
            ∙ find-foreign_fields name fields h,
      )
    ]

module _ (p : Platform) (can : String → Bool) (fs : FileSystem) (servers : List Server)
    (o : WriteOptions) where
  write-IsPreserved_of :
      (out : FileSystem × Written) (fs' : FileSystem) (r : WriteResult)
      → out ≡ (fs', done r)
      → r.layout ≢ directory
      → o.preserve_other_providers ≡ true
      → provider_path p o.paths ≢ o.paths.legacy_file
      → Effect p fs servers o out
      → IsPreserved fs fs' o.paths.legacy_file servers o
  write-IsPreserved_of out fs' r e l on a (untouched why f k) =
      absurd (result_failure why r f (ap (λ x. x.1) (sym k ∙ e)))
  write-IsPreserved_of out fs' r e l on a (half why f k) =
      absurd (result_failure why r f (ap (λ x. x.1) (sym k ∙ e)))
  write-IsPreserved_of out fs' r e l on a (directory_only r' m k) =
      absurd (l (ap (λ x. layout_in x.1) (sym e ∙ k) ∙ m))
  write-IsPreserved_of out fs' r e l on a (legacy_only r' others m kept k) =
      whole_file-IsPreserved fs fs' _ servers o others on kept (
        ap (λ x. find o.paths.legacy_file x.0) (sym e ∙ k)
        ∙ find-put_self _ (whole_file servers o others) fs)
  write-IsPreserved_of out fs' r e l on a (both_files r' others m kept k) =
      whole_file-IsPreserved fs fs' _ servers o others on
        (sym (kept_fields-put o.preserve_other_providers fs _ _ (directory_file servers o) a)
          ∙ kept)
        (ap (λ x. find o.paths.legacy_file x.0) (sym e ∙ k)
          ∙ find-put_self _ (whole_file servers o others) _)

  -- A successful write of the legacy file with the other providers preserved: the file could be read
  -- before, it now holds the new section for protonvpn, and every key other than that and "version"
  -- has the value it had. The provider's path is assumed not to be the legacy file's.
  pub write-IsPreserved :
      (fs' : FileSystem) (r : WriteResult)
      → write p can fs servers o ≡ (fs', done r)
      → r.layout ≢ directory
      → o.preserve_other_providers ≡ true
      → provider_path p o.paths ≢ o.paths.legacy_file
      → IsPreserved fs fs' o.paths.legacy_file servers o
  write-IsPreserved fs' r e l on a =
      write-IsPreserved_of _ fs' r e l on a (write-Effect can servers o p fs)

  failure_of :
      (out : FileSystem × Written) (path : String)
      → IsFailure out.1
      → provider_path p o.paths ≢ path
      → Effect p fs servers o out
      → find path out.0 ≡ find path fs
  failure_of out path h a (untouched why f k) = ap (λ x. find path x.0) k
  failure_of out path h a (half why f k) =
      ap (λ x. find path x.0) k ∙ find-put_ne _ path (directory_file servers o) fs a
  failure_of out path h a (directory_only r m k) = absurd (subst (λ x. IsFailure x.1) k h)
  failure_of out path h a (legacy_only r others m kept k) = absurd (subst (λ x. IsFailure x.1) k h)
  failure_of out path h a (both_files r others m kept k) = absurd (subst (λ x. IsFailure x.1) k h)

  -- A write that fails leaves every file as it was but the provider's own.
  pub write_failed :
      (path : String)
      → IsFailure (write p can fs servers o).1
      → provider_path p o.paths ≢ path
      → find path (write p can fs servers o).0 ≡ find path fs
  write_failed path h a = failure_of _ path h a (write-Effect can servers o p fs)
