-- ===== src/Tests/Elevations.antt =====
-- A command line.
use netplan.Base.{◌≡◌, refl, List, [], ◌∷◌, ◌++◌, Text, codes, ok}
use netplan.Elevation.{quoted_rest, append_quoted_argument, command_line}
use netplan.Elevation.Quoting.{split_arguments, split_arguments-command_line}

abbrev arguments : List Text
arguments = codes "--endpoint" ∷ codes "\\\\.\\pipe\\pe netplan" ∷ codes "a\\\"b" ∷ [] ∷ []

abbrev line : Text
line = codes "--endpoint \"\\\\.\\pipe\\pe netplan\" \"a\\\\\\\"b\" \"\""

command_line_test : command_line arguments ≡ ok (line ++ 0 ∷ [])
unfolding command_line append_quoted_argument quoted_rest
command_line_test = refl

split_arguments-command_line_example :
    (text : Text) × (command_line arguments ≡ ok (text ++ 0 ∷ []))
    × (split_arguments text ≡ arguments)
split_arguments-command_line_example = split_arguments-command_line arguments refl
