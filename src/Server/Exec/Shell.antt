-- ===== src/Server/Exec/Shell.antt =====
-- exec.rs: the command that a request becomes, and the script for a profile's shell, on Unix.
pub mod Words
use Prim.Native.Char.{Char, code}
use Prim.Native.String.{[] as nil, ◌∷◌ as ◌▹◌}
use remote_workspace.Prelude.{
  String, Bool, true, false, Option, none, some, List, [], ◌∷◌, ◌++◌, map, ◌==◌, str_eq, ◌<>◌,
  if◌then◌else◌,
}
use remote_workspace.Server.Config.{Profile}

-- `s.replace('\'', "'\\''")`
unfoldable pub replace_quotes : String → String
replace_quotes nil = nil
replace_quotes (c ▹ s) = if code c == 39 then "'\\''" <> replace_quotes s else c ▹ replace_quotes s

unfoldable pub shell_quote : String → String
unfolding replace_quotes
shell_quote nil = "''"
shell_quote (c ▹ s) = "'" <> (replace_quotes (c ▹ s) <> "'")

-- `join(" ")`
unfoldable pub join_spaced : List String → String
join_spaced [] = ""
join_spaced (s ∷ []) = s
join_spaced (s ∷ t ∷ rest) = s <> (" " <> join_spaced (t ∷ rest))

unfoldable pub profile_script : (setup : String) → (argv : List String) → String
unfolding shell_quote join_spaced
profile_script setup argv =
    if str_eq setup ""
    then "exec " <> join_spaced (map shell_quote argv)
    else setup <> ("\nexec " <> join_spaced (map shell_quote argv))

-- `Command`: the program and its arguments.
pub record Command : Type 0 where
  pub program : String
  pub args : List String

-- The head of a list and the rest; an index out of range is `none`.
abbrev pub command : List String → List String → Option Command
command [] more = none
command (program ∷ args) more = some (record { program = program; args = args ++ more })

-- Without a profile the argv itself, and with one its shell on a script.
unfoldable pub command_for : Option Profile → (argv : List String) → Option Command
unfolding profile_script
command_for none argv = command argv []
command_for (some p) argv = command p.shell (profile_script p.setup argv ∷ [])
