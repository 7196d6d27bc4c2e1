-- ===== src/Countries.antt =====
-- internal/countries/countries.go: country codes to Gluetun's country names, and back.
use gluetun_proton_list_upda.Prelude.{
  String, Bool, true, false, Option, none, some, [], ◌∷◌, str_eq, string_eq, if◌then◌else◌,
}
use gluetun_proton_list_upda.Prelude.Table.{Table, find, put}
use gluetun_proton_list_upda.Platform.{Platform}

abbrev pub supplement : Table String String
supplement = ("xk", "Kosovo") ∷ []

-- `codeToName` after the initialiser of `nameToCode` has added what it lacks.
add_missing : Table String String → Table String String → Table String String
add_missing [] m = m
add_missing ((code, country) ∷ rest) m =
    add_missing rest (elim (find code m) [ none ↦ put code country m | some _ ↦ m ])

unfoldable pub code_to_name : Platform → Table String String
unfolding add_missing
code_to_name p = add_missing supplement p.code_to_name

name_to_code_from : Platform → Table String String → Table String String → Table String String
name_to_code_from p [] m = m
name_to_code_from p ((code, country) ∷ rest) m =
    name_to_code_from p rest (put (p.to_lower country) code m)

unfoldable pub name_to_code : Platform → Table String String
unfolding name_to_code_from
name_to_code p = name_to_code_from p (code_to_name p) []

-- `Name`: the country name and whether the code is known.
unfoldable pub name : Platform → String → String × Bool
name p code = elim (find (p.to_lower (p.trim_space code)) (code_to_name p)) [
  | none ↦ (p.to_upper (p.trim_space code), false)
  | some country ↦ (country, true)
]

-- `codeToName[code]`, where a missing key reads as the empty text.
name_of_code : Platform → String → String
name_of_code p code = elim (find code (code_to_name p)) [ none ↦ "" | some country ↦ country ]

-- `Normalize`: `none` stands for its two errors.
unfoldable pub normalize : Platform → String → Option String
unfolding name_of_code
normalize p input =
    let trimmed = p.trim_space input in
    if str_eq trimmed "" then none else elim (find (p.to_lower trimmed) (code_to_name p)) [
      | some country ↦ some country
      | none ↦ elim (find (p.to_lower trimmed) (name_to_code p)) [
        | some code ↦ some (name_of_code p code)
        | none ↦ none
      ]
    ]
