-- ===== src/FlowExporter.antt =====
-- src/core/FlowExporter.cpp: the escaping of the fields of a CSV file.
pub mod Csv
pub mod Json
pub mod Rows
pub mod Document
use netprobe_cpp.Base.{ℕ, Bool, false, ◌||◌, ◌==◌, if◌then◌else◌, List, [], ◌∷◌, ◌++◌, Bytes}

abbrev pub comma : ℕ
comma = 44

abbrev pub quote : ℕ
quote = 34

abbrev pub newline : ℕ
newline = 10

-- `find_first_of(",\"\n")` finds one.
unfoldable pub needs_quotes : Bytes → Bool
needs_quotes [] = false
needs_quotes (c ∷ cs) = (c == comma) || (c == quote) || (c == newline) || needs_quotes cs

-- The loop that doubles the quotes.
pub double_quotes : Bytes → Bytes
double_quotes [] = []
double_quotes (c ∷ cs) =
    let rest = double_quotes cs in if c == quote then quote ∷ quote ∷ rest else c ∷ rest

pub csv_escape : Bytes → Bytes
csv_escape value = if needs_quotes value then quote ∷ (double_quotes value ++ quote ∷ []) else value

-- A first field and the others, with the commas and the newline of the loop of `writeCsv`.
pub csv_line : Bytes → List Bytes → Bytes
csv_line field [] = field ++ newline ∷ []
csv_line field (next ∷ others) = field ++ comma ∷ csv_line next others
