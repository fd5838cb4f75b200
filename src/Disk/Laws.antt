-- ===== src/Disk/Laws.antt =====
-- What is read from the disk after a write.
use Prim.Native.Char.{code}
use Prim.Native.String.{String, [], ◌∷◌, ◌++◌}
use text.Mathlib.TextLemmas.{nil-append, cons-append}
use cs739_p2_replicated_data.Base.{
  ◌≡◌, refl, Bool, true, false, arith, nat_eq, str_eq, ◌&&◌, if◌then◌else◌,
}
use cs739_p2_replicated_data.Map.{string_key}
use cs739_p2_replicated_data.Map.Laws.{lookup-insert}
use cs739_p2_replicated_data.Disk.{Files, get_line, read_from_disk, write_to_disk}

-- The text is one line, with no newline in it.
abbrev pub is_line : String → Bool
is_line [] = true
is_line (c ∷ s) = let rest = is_line s in if nat_eq (code c) 10 then false else rest

get_line-line : (s : String) → is_line s ≡ true → get_line s ≡ s
unfolding get_line
get_line-line [] h = refl
get_line-line (c ∷ s) h = ground (arith, get_line-line s)

get_line-lines : (s rest : String) → is_line s ≡ true → get_line (s ++ ("\n" ∷ rest)) ≡ s
unfolding get_line
get_line-lines [] rest h = rw (nil-append ("\n" ∷ rest)) refl
get_line-lines (c ∷ s) rest h =
    rw (cons-append c s ("\n" ∷ rest)) (ground (arith, get_line-lines s rest))

-- Where a file can be opened, a value of one line that is written is read back, whatever the file
-- held; of a value with more lines the first one is read back, and the rest is lost. Any other file
-- is read as before, and so is the file itself where it cannot be opened.
pub read_from_disk-write_to_disk :
    (can_open : String → Bool) (path other line rest : String) (files : Files)
    → is_line line ≡ true
    → let after : String → String =
        λ value. read_from_disk other (write_to_disk can_open path value files) in
      let expected : String =
        if can_open path && str_eq path other then line else read_from_disk other files in
      (after line ≡ expected) × (after (line ++ ("\n" ∷ rest)) ≡ expected)
unfolding read_from_disk write_to_disk
read_from_disk-write_to_disk can_open path other line rest files h =
    let more : String = line ++ ("\n" ∷ rest) in
    (
      ground (arith, lookup-insert path other line files, get_line-line line h),
      ground (arith, lookup-insert path other more files, get_line-lines line rest h),
    )
