-- ===== src/Disk.antt =====
-- src/app.cc, `readFromDisk` and `writeToDisk`: a value kept in a file. The file system is a map of
-- paths to contents, and which paths can be opened for writing is a parameter; the streams report
-- no error to the program.
pub mod Laws
use Prim.Native.Char.{code}
use Prim.Native.String.{String, [], ◌∷◌}
use cs739_p2_replicated_data.Base.{Bool, none, some, nat_eq, if◌then◌else◌}
use cs739_p2_replicated_data.Map.{Map, lookup, insert, string_key}

abbrev pub Files : Type 0
Files = Map String String

-- `std::getline`: the text before the first newline
unfoldable pub get_line : String → String
get_line [] = []
get_line (c ∷ s) = let rest = get_line s in if nat_eq (code c) 10 then [] else c ∷ rest

-- A file that cannot be opened leaves the value empty.
unfoldable pub read_from_disk : String → Files → String
unfolding lookup
read_from_disk path files = elim (lookup path files) [ none ↦ "" | some content ↦ get_line content ]

-- The old content is truncated. Nothing is written where the file cannot be opened.
unfoldable pub write_to_disk : (String → Bool) → String → String → Files → Files
unfolding insert
write_to_disk can_open path value files = if can_open path then insert path value files else files
