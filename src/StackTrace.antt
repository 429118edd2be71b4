-- ===== src/StackTrace.antt =====
-- `cleanStackTrace` and `isLibraryStackFrame` of process.go, on the code points of the text.
pub mod Library
pub mod Frames
use xwork.Prelude.{ℕ, Bool, false, ◌||◌, List, [], ◌∷◌, ◌++◌, eqb, if◌then◌else◌, String}
use xwork.Text.{codes, is_prefix}

abbrev pub newline : ℕ
newline = 10

-- `strings.TrimRight(text, "\n")`
unfoldable pub trim_newlines : List ℕ → List ℕ
trim_newlines [] = []
trim_newlines (c ∷ cs) = elim (trim_newlines cs) [
  | [] ↦ if eqb c newline then [] else c ∷ []
  | d ∷ ds ↦ c ∷ d ∷ ds
]

-- a character in front of the first line
abbrev pub extend_line : ℕ → List (List ℕ) → List (List ℕ)
extend_line c [] = (c ∷ []) ∷ []
extend_line c (line ∷ lines) = (c ∷ line) ∷ lines

-- `strings.Split(text, "\n")`
unfoldable pub split_lines : List ℕ → List (List ℕ)
split_lines [] = [] ∷ []
split_lines (c ∷ cs) =
    let rest = split_lines cs in if eqb c newline then [] ∷ rest else extend_line c rest

-- `strings.Join(lines, "\n")`
unfoldable pub join_lines : List (List ℕ) → List ℕ
join_lines [] = []
join_lines (line ∷ []) = line
join_lines (line ∷ next ∷ lines) = line ++ (newline ∷ join_lines (next ∷ lines))

abbrev pub library_prefixes : List String
library_prefixes =
    "runtime/debug.Stack" ∷ "panic(" ∷ "github.com/mathiashsteffensen/xwork/v2.(*Processor)."
    ∷ "github.com/alitto/pond." ∷ "runtime.goexit" ∷ []

unfoldable pub has_prefix_in : List String → List ℕ → Bool
has_prefix_in [] func_line = false
has_prefix_in (prefix ∷ prefixes) func_line =
    is_prefix (codes prefix) func_line || has_prefix_in prefixes func_line

unfoldable pub is_library_stack_frame : List ℕ → Bool
unfolding has_prefix_in
is_library_stack_frame func_line = has_prefix_in library_prefixes func_line

-- `append(filtered, fileLine)`, unless it is empty
abbrev pub with_file_line : List ℕ → List (List ℕ) → List (List ℕ)
with_file_line [] rest = rest
with_file_line (c ∷ cs) rest = (c ∷ cs) ∷ rest

-- The loop over the frames: the lines after the first, two at a time.
unfoldable pub filter_frames : List (List ℕ) → List (List ℕ)
filter_frames [] = []
filter_frames (func_line ∷ []) = if is_library_stack_frame func_line then [] else func_line ∷ []
filter_frames (func_line ∷ file_line ∷ lines) =
    let rest = filter_frames lines in
    if is_library_stack_frame func_line then rest else func_line ∷ with_file_line file_line rest

-- the end of the function: a trace with no frame left is dropped
abbrev pub join_trace : List ℕ → List (List ℕ) → List ℕ
join_trace header [] = []
join_trace header (line ∷ lines) = join_lines (header ∷ line ∷ lines)

abbrev pub clean_lines : List (List ℕ) → List ℕ
clean_lines [] = []
clean_lines (header ∷ lines) = join_trace header (filter_frames lines)

unfoldable pub clean_stack_trace : List ℕ → List ℕ
clean_stack_trace [] = []
clean_stack_trace (c ∷ cs) = clean_lines (split_lines (trim_newlines (c ∷ cs)))
