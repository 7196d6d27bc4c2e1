-- ===== src/Serversfile/Disk.antt =====
-- internal/serversfile/serversfile.go: what `Write` leaves on the disk.
use gluetun_proton_list_upda.Prelude.{
  String, Bool, true, false, ◌≡◌, refl, List, [], ◌∷◌, ◌++◌, some, string_eq, Option-cases,
  Bool-cases, inl, inr, if◌then◌else◌,
}
use gluetun_proton_list_upda.Prelude.Sort.{sort_stable}
use gluetun_proton_list_upda.Prelude.Table.{Table, put}
use gluetun_proton_list_upda.Prelude.Text.{str_ltb}
use gluetun_proton_list_upda.Platform.{Platform}
use gluetun_proton_list_upda.Serversfile.{
  provider, top_level_schema_version, Layout, directory, legacy, both, Server, Json, number,
  section, File, object, FileSystem, provider_path,
}
use gluetun_proton_list_upda.Serversfile.Write.{
  WriteOptions, WriteResult, Written, no_servers, no_schema_version, bad_path, not_read,
  not_written, done, section_fields, keys_of, replace_file, kept_fields, write_legacy, layout_of,
  section_of, result_of, write_fat, write_layout, write,
}

abbrev pub directory_file : List Server → WriteOptions → File
directory_file servers o = object (section_fields (section_of servers o))

abbrev pub whole_file : List Server → WriteOptions → Table String Json → File
whole_file servers o others = object (
    (provider, section (section_of servers o))
    ∷ ("version", number top_level_schema_version)
    ∷ others)

abbrev pub IsFailure : Written → Type 0
IsFailure (done _) = ⊥
IsFailure _ = Unit

module _ (p : Platform) (fs : FileSystem) (servers : List Server) (o : WriteOptions) where
  -- What a write did: nothing, the directory's file alone and perhaps a failure after it, the legacy
  -- file alone, or both.
  pub data Effect (out : FileSystem × Written) : Type 0 where
    untouched : (why : Written) → IsFailure why → out ≡ (fs, why) → Effect out
    half :
        (why : Written)
        → IsFailure why
        → out ≡ (put (provider_path p o.paths) (directory_file servers o) fs, why)
        → Effect out
    directory_only :
        (r : WriteResult)
        → r.layout ≡ directory
        → out ≡ (put (provider_path p o.paths) (directory_file servers o) fs, done r)
        → Effect out
    legacy_only :
        (r : WriteResult) (others : Table String Json)
        → r.layout ≡ legacy
        → kept_fields o.preserve_other_providers fs o.paths.legacy_file ≡ some others
        → out ≡ (put o.paths.legacy_file (whole_file servers o others) fs, done r)
        → Effect out
    both_files :
        (r : WriteResult) (others : Table String Json)
        → r.layout ≡ both
        → kept_fields o.preserve_other_providers
            (put (provider_path p o.paths) (directory_file servers o) fs)
            o.paths.legacy_file
          ≡ some others
        → out ≡ (
          put o.paths.legacy_file
              (whole_file servers o others)
              (put (provider_path p o.paths) (directory_file servers o) fs),
          done r,
        )
        → Effect out

module _ (can : String → Bool) (servers : List Server) (o : WriteOptions) where
  -- the legacy half by itself
  data Half (fs : FileSystem) (layout : Layout) (out : FileSystem × Written) : Type 0 where
    stopped : (why : Written) → IsFailure why → out ≡ (fs, why) → Half fs layout out
    went :
        (r : WriteResult) (others : Table String Json)
        → r.layout ≡ layout
        → kept_fields o.preserve_other_providers fs o.paths.legacy_file ≡ some others
        → out ≡ (put o.paths.legacy_file (whole_file servers o others) fs, done r)
        → Half fs layout out

  write_fat-Half :
      (fs : FileSystem) (layout : Layout) (before : List String)
      → Half fs layout (write_fat can fs layout servers o before)
  unfolding write_fat write_legacy replace_file
  write_fat-Half fs layout before =
      elim (Option-cases (kept_fields o.preserve_other_providers fs o.paths.legacy_file)) [
        | inl e ↦ rw (e, write_fat, write_legacy) (stopped not_read tt refl)
        | inr (others, e) ↦ elim (Bool-cases (can o.paths.legacy_file)) [
          | inl t ↦
              rw (e, write_fat, write_legacy)
                (rw t (
                  went
                    (result_of layout servers o (before ++ o.paths.legacy_file ∷ [])
                      (sort_stable str_ltb (keys_of others)))
                    others refl e refl))
          | inr f ↦ rw (e, write_fat, write_legacy) (rw f (stopped not_written tt refl))
        ]
      ]

  Effect-Half_legacy :
      (p : Platform) (fs : FileSystem) (out : FileSystem × Written)
      → Half fs legacy out
      → Effect p fs servers o out
  Effect-Half_legacy p fs out (stopped why h e) = untouched why h e
  Effect-Half_legacy p fs out (went r others l k e) = legacy_only r others l k e

  Effect-Half_both :
      (p : Platform) (fs : FileSystem) (out : FileSystem × Written)
      → Half (put (provider_path p o.paths) (directory_file servers o) fs) both out
      → Effect p fs servers o out
  Effect-Half_both p fs out (stopped why h e) = half why h e
  Effect-Half_both p fs out (went r others l k e) = both_files r others l k e

  write_layout-Effect :
      (p : Platform) (fs : FileSystem) (layout : Layout)
      → Effect p fs servers o (write_layout p can fs layout servers o)
  unfolding write_layout replace_file
  write_layout-Effect p fs legacy = Effect-Half_legacy p fs _ (write_fat-Half fs legacy [])
  write_layout-Effect p fs directory = elim (Bool-cases (can (provider_path p o.paths))) [
    | inl t ↦
        rw (t, write_layout)
          (directory_only (result_of directory servers o (provider_path p o.paths ∷ []) []) refl
            refl)
    | inr f ↦ rw (f, write_layout) (untouched not_written tt refl)
  ]
  write_layout-Effect p fs both = elim (Bool-cases (can (provider_path p o.paths))) [
    | inl t ↦
        rw (t, write_layout)
          (Effect-Half_both p fs _ (
            write_fat-Half (put (provider_path p o.paths) (directory_file servers o) fs) both
              (provider_path p o.paths ∷ [])))
    | inr f ↦ rw (f, write_layout) (untouched not_written tt refl)
  ]

  Effect-if :
      (p : Platform) (fs : FileSystem) (b : Bool) (x y : FileSystem × Written)
      → Effect p fs servers o x
      → Effect p fs servers o y
      → Effect p fs servers o (if b then x else y)
  Effect-if p fs true x y hx hy = hx
  Effect-if p fs false x y hx hy = hy

  pub write-Effect :
      (p : Platform) (fs : FileSystem) → Effect p fs servers o (write p can fs servers o)
  unfolding write
  write-Effect p fs = Effect-if p fs _ _ _ (untouched no_servers tt refl) (
      Effect-if p fs _ _ _ (untouched no_schema_version tt refl) (
        Effect-if p fs _ _ _ (untouched bad_path tt refl)
          (write_layout-Effect p fs (layout_of p fs o))))
