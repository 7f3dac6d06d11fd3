-- ===== src/Format/Reader.antt =====
-- A reader of the files of format.go, which stands for `wg-quick`: the lines, of which a line that is
-- empty or a comment is passed over, `[name]` opens a section, and any other is a setting.
use wga.Base.{ℕ, List, [], ◌∷◌, ◌==◌, if◌then◌else◌, Bytes, bytes, has_prefix, drop}

-- A section: its name, and its settings in their order.
pub record Section : Type 0 where
  pub name : Bytes
  pub settings : List (Bytes × Bytes)

-- One more character of the first line
unfoldable pub push : ℕ → List Bytes → List Bytes
push c [] = (c ∷ []) ∷ []
push c (l ∷ ls) = (c ∷ l) ∷ ls

-- The lines of a text, with the empty one after the last newline
unfoldable pub lines : Bytes → List Bytes
unfolding push
lines [] = [] ∷ []
lines (c ∷ s) = let rest = lines s in if c == 10 then [] ∷ rest else push c rest

-- The name and the value on both sides of the first ` = `; without it the value is empty.
unfoldable pub setting : Bytes → Bytes × Bytes
unfolding has_prefix
setting [] = ([], [])
setting (c ∷ s) =
    let (name, value) = setting s in
    if has_prefix (c ∷ s) (bytes " = ") then ([], drop 2 s) else (c ∷ name, value)

-- The text before the bracket
unfoldable pub section_name : Bytes → Bytes
section_name [] = []
section_name (c ∷ s) = let rest = section_name s in if c == b']' then [] else c ∷ rest

-- A line before what has been read: the settings of the section that is still to be opened, and the
-- sections.
unfoldable pub add_line :
    Bytes → List (Bytes × Bytes) × List Section → List (Bytes × Bytes) × List Section
unfolding setting section_name
add_line [] after = after
add_line (c ∷ s) (settings, sections) =
    if c == b'#'
    then (settings, sections)
    else if c == b'['
    then ([], record { name = section_name s; settings = settings } ∷ sections)
    else (setting (c ∷ s) ∷ settings, sections)

unfoldable pub read_lines : List Bytes → List (Bytes × Bytes) × List Section
unfolding add_line
read_lines [] = ([], [])
read_lines (l ∷ ls) = add_line l (read_lines ls)

-- The sections of a file
unfoldable pub read_file : Bytes → List Section
unfolding lines read_lines
read_file text = (read_lines (lines text)).1
