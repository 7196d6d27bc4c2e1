-- ===== src/Serversfile/Foreign.antt =====
-- internal/serversfile/serversfile.go: what only Gluetun writes, before and after a `Write`.
use gluetun_proton_list_upda.Prelude.{
  String, Bool, true, false, ◌&&◌, ◌≡◌, ◌≢◌, refl, sym, ap, ◌∙◌, List, [], ◌∷◌, none, some, str_eq,
  str_eq_iff, string_eq, Option-cases, Bool-cases, inl, inr, ◌⊎◌, if◌then◌else◌, arith,
}
use gluetun_proton_list_upda.Prelude.Table.{Table, find, put}
use gluetun_proton_list_upda.Platform.{Platform}
use gluetun_proton_list_upda.Serversfile.{
  Server, Json, is_file, file_exists, fields_of, read_raw_file, is_foreign, has_foreign, foreign_in,
  has_gluetun_data, File, FileSystem, manifest_path, provider_path,
}
use gluetun_proton_list_upda.Serversfile.Write.{
  foreign_fields, kept_fields, WriteOptions, Written, write,
}
use gluetun_proton_list_upda.Serversfile.Disk.{
  Effect, untouched, half, directory_only, legacy_only, both_files, write-Effect, directory_file,
  whole_file,
}
use gluetun_proton_list_upda.Serversfile.Promises.{find-put_self, find-put_ne}

has_foreign-foreign_fields :
    (fields : Table String Json) → has_foreign (foreign_fields fields) ≡ has_foreign fields
unfolding has_foreign
has_foreign-foreign_fields [] = refl
has_foreign-foreign_fields ((name, v) ∷ rest) = elim (Bool-cases (is_foreign name)) [
  | inl t ↦ rw t (rw t refl)
  | inr f ↦ rw f (has_foreign-foreign_fields rest)
]

pub find-foreign_fields :
    (name : String) (fields : Table String Json)
    → is_foreign name ≡ true
    → find name (foreign_fields fields) ≡ find name fields
unfolding find
find-foreign_fields name [] h = refl
find-foreign_fields name ((key, v) ∷ rest) h = elim (Bool-cases (str_eq key name)) [
  | inl t ↦ rw (ap is_foreign ((str_eq_iff key name).0 t) ∙ h) (rw t refl)
  | inr f ↦ elim (Bool-cases (is_foreign key)) [
    | inl t ↦ rw t (rw f (find-foreign_fields name rest h))
    | inr g ↦ rw g (rw f (find-foreign_fields name rest h))
  ]
]

pub kept_fields-put :
    (preserve : Bool) (fs : FileSystem) (path other : String) (f : File)
    → other ≢ path
    → kept_fields preserve (put other f fs) path ≡ kept_fields preserve fs path
unfolding kept_fields read_raw_file
kept_fields-put false fs path other f h = refl
kept_fields-put true fs path other f h =
    ap
      (λ found. elim (fields_of found) [ none ↦ none | some fields ↦ some (foreign_fields fields) ])
      (find-put_ne other path f fs h)

-- The keys to keep are those of the file that are foreign, or none.
pub kept_fields-cases :
    (preserve : Bool) (fs : FileSystem) (path : String) (others : Table String Json)
    → kept_fields preserve fs path ≡ some others
    → ((preserve ≡ false) × (others ≡ []))
      ⊎ ((preserve ≡ true)
          × (fields : Table String Json) × (read_raw_file fs path ≡ some fields)
          × (others ≡ foreign_fields fields))
unfolding kept_fields
kept_fields-cases false fs path others e = inl (refl, cc)
kept_fields-cases true fs path others e = elim (Option-cases (read_raw_file fs path)) [
  | inl n ↦ let k : kept_fields true fs path ≡ none = rw (n, kept_fields) refl in cc
  | inr (fields, n) ↦
      let k : kept_fields true fs path ≡ some (foreign_fields fields) = rw (n, kept_fields) refl in
      inr (refl, fields, n, cc)
]

module _ (p : Platform) (fs : FileSystem) (servers : List Server) (o : WriteOptions) where
  -- every other file
  pub find_elsewhere :
      (path : String) (out : FileSystem × Written)
      → provider_path p o.paths ≢ path
      → o.paths.legacy_file ≢ path
      → Effect p fs servers o out
      → find path out.0 ≡ find path fs
  find_elsewhere path out a b (untouched why f k) = ap (λ x. find path x.0) k
  find_elsewhere path out a b (half why f k) =
      ap (λ x. find path x.0) k ∙ find-put_ne _ path (directory_file servers o) fs a
  find_elsewhere path out a b (directory_only r l k) =
      ap (λ x. find path x.0) k ∙ find-put_ne _ path (directory_file servers o) fs a
  find_elsewhere path out a b (legacy_only r others l m k) =
      ap (λ x. find path x.0) k ∙ find-put_ne _ path (whole_file servers o others) fs b
  find_elsewhere path out a b (both_files r others l m k) =
      ap (λ x. find path x.0) k
      ∙ find-put_ne _ path (whole_file servers o others)
          (put (provider_path p o.paths) (directory_file servers o) fs) b
      ∙ find-put_ne _ path (directory_file servers o) fs a

  -- The legacy file stays, or holds this tool's two keys before the ones kept.
  pub legacy_file_after :
      (out : FileSystem × Written)
      → provider_path p o.paths ≢ o.paths.legacy_file
      → Effect p fs servers o out
      → (find o.paths.legacy_file out.0 ≡ find o.paths.legacy_file fs)
        ⊎ ((others : Table String Json) × (kept_fields o.preserve_other_providers fs
                o.paths.legacy_file
              ≡ some others)
            × (find o.paths.legacy_file out.0 ≡ some (whole_file servers o others)))
  legacy_file_after out a (untouched why f k) = inl (ap (λ x. find o.paths.legacy_file x.0) k)
  legacy_file_after out a (half why f k) =
      inl
        (ap (λ x. find o.paths.legacy_file x.0) k ∙ find-put_ne _ _ (directory_file servers o) fs a)
  legacy_file_after out a (directory_only r l k) =
      inl
        (ap (λ x. find o.paths.legacy_file x.0) k ∙ find-put_ne _ _ (directory_file servers o) fs a)
  legacy_file_after out a (legacy_only r others l m k) = inr (
    others,
    m,
    ap (λ x. find o.paths.legacy_file x.0) k ∙ find-put_self _ (whole_file servers o others) fs,
  )
  legacy_file_after out a (both_files r others l m k) = inr (
    others,
    sym (kept_fields-put o.preserve_other_providers fs _ _ (directory_file servers o) a) ∙ m,
    ap (λ x. find o.paths.legacy_file x.0) k ∙ find-put_self _ (whole_file servers o others) _,
  )

foreign_in_after :
    (preserve : Bool) (fs fs' : FileSystem) (path : String) (servers : List Server)
    (o : WriteOptions) (others : Table String Json)
    → kept_fields preserve fs path ≡ some others
    → find path fs' ≡ some (whole_file servers o others)
    → (foreign_in (read_raw_file fs' path) ≡ true → foreign_in (read_raw_file fs path) ≡ true)
      × (preserve ≡ true → foreign_in (read_raw_file fs' path) ≡ foreign_in (read_raw_file fs path))
unfolding read_raw_file has_foreign
foreign_in_after preserve fs fs' path servers o others k e =
    let now : foreign_in (read_raw_file fs' path) ≡ has_foreign others =
      ap (λ x. foreign_in (fields_of x)) e in
    elim (kept_fields-cases preserve fs path others k) [
      | inl (off, empty) ↦
          (λ h. let z : false ≡ true = sym (now ∙ ap has_foreign empty) ∙ h in cc, λ on. cc)
      | inr (on, fields, was, eq) ↦
          let same : foreign_in (read_raw_file fs' path) ≡ foreign_in (read_raw_file fs path) =
            now ∙ ap has_foreign eq ∙ has_foreign-foreign_fields fields ∙ sym (ap foreign_in was) in
          (λ h. sym same ∙ h, λ _. same)
    ]

abbrev guarded : Bool → Bool → Bool → Bool → Bool
guarded named manifest unnamed foreign =
    if named && manifest then true else if unnamed then false else foreign

guarded_of :
    (n m m' u f f' : Bool)
    → m' ≡ m
    → (f' ≡ true → f ≡ true)
    → guarded n m' u f' ≡ true
    → guarded n m u f ≡ true
guarded_of n m m' u f f' e h k = ground arith

guarded_eq : (n m m' u f f' : Bool) → m' ≡ m → f' ≡ f → guarded n m' u f' ≡ guarded n m u f
guarded_eq n m m' u f f' e h = ground arith

module _ (p : Platform) (can : String → Bool) (fs : FileSystem) (servers : List Server)
    (o : WriteOptions) where
  -- What counts as Gluetun's own data is never made by a write, whether it succeeds or fails; and
  -- with the other providers preserved it is never lost either. The three files are assumed to
  -- be different ones.
  pub has_gluetun_data-write :
      (provider_path p o.paths ≢ manifest_path p o.paths)
      → (o.paths.legacy_file ≢ manifest_path p o.paths)
      → (provider_path p o.paths ≢ o.paths.legacy_file)
      → (has_gluetun_data p (write p can fs servers o).0 o.paths ≡ true
          → has_gluetun_data p fs o.paths ≡ true)
        × (o.preserve_other_providers ≡ true
            → has_gluetun_data p (write p can fs servers o).0 o.paths
              ≡ has_gluetun_data p fs o.paths)
  unfolding has_gluetun_data file_exists
  has_gluetun_data-write a b c =
      let effect : Effect p fs servers o (write p can fs servers o) =
        write-Effect can servers o p fs in
      let manifest : file_exists (write p can fs servers o).0 (manifest_path p o.paths)
          ≡ file_exists fs (manifest_path p o.paths) =
        ap is_file (find_elsewhere p fs servers o (manifest_path p o.paths) _ a b effect) in
      elim (legacy_file_after p fs servers o _ c effect) [
        | inl same ↦
            let eq = ap (λ found. foreign_in (fields_of found)) same in
            (
              guarded_of _ _ _ _ _ _ manifest (λ h. sym eq ∙ h),
              λ _. guarded_eq _ _ _ _ _ _ manifest eq,
            )
        | inr (others, k, e) ↦
            let (x, y) =
              foreign_in_after o.preserve_other_providers fs _ o.paths.legacy_file servers o others
                k e in
            (guarded_of _ _ _ _ _ _ manifest x, λ on. guarded_eq _ _ _ _ _ _ manifest (y on))
      ]
