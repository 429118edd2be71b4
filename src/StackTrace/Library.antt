-- ===== src/StackTrace/Library.antt =====
-- The frames that `cleanStackTrace` of process.go takes for the library's.
use xwork.Prelude.{
  ℕ, Bool, true, not, String, In, inl, inr, Bool-cases, List, [], ◌∷◌, ◌++◌, ◌≡◌, refl, arith, keep,
}
use xwork.Text.{codes, is_prefix}
use xwork.StackTrace.{has_prefix_in, is_library_stack_frame}

abbrev pub Line : Type 0
Line = List ℕ

-- A frame is a function's line and its file's line, empty where the trace ends before it.
abbrev pub Frame : Type 0
Frame = Line × Line

abbrev pub is_user_frame : Frame → Bool
is_user_frame frame = not (is_library_stack_frame frame.0)

-- The functions of the library and of the runtime, by how their lines begin.
abbrev library_functions : List String
library_functions =
    "runtime/debug.Stack" ∷ "panic(" ∷ "github.com/mathiashsteffensen/xwork/v2.(*Processor)."
    ∷ "github.com/alitto/pond." ∷ "runtime.goexit" ∷ []

-- The line begins with one of the texts.
abbrev BeginsWith : List String → Line → Type 0
BeginsWith texts line =
    (text : String) × In text texts × (rest : Line) × (line ≡ codes text ++ rest)

-- The frames that are left: those whose function is not the library's, in order.
pub data IsFiltered : List Frame → List Frame → Type 0 where
  done : IsFiltered [] []
  drops :
      (frame : Frame) (fs left : List Frame)
      → BeginsWith library_functions frame.0
      → IsFiltered fs left
      → IsFiltered (frame ∷ fs) left
  keeps :
      (frame : Frame) (fs left : List Frame)
      → ¬ BeginsWith library_functions frame.0
      → IsFiltered fs left
      → IsFiltered (frame ∷ fs) (frame ∷ left)

is_prefix-rest :
    (prefix line : List ℕ) → is_prefix prefix line ≡ true → (rest : Line) × (line ≡ prefix ++ rest)
unfolding is_prefix
is_prefix-rest [] line h = (line, refl)
is_prefix-rest (c ∷ prefix) [] h = absurd cc
is_prefix-rest (c ∷ prefix) (d ∷ line) h =
    let (rest, e) = is_prefix-rest prefix line (ground (arith, h)) in
    let same : d ≡ c = ground (arith, h) in (rest, rw (same, e) refl)

is_prefix-append : (prefix rest : List ℕ) → is_prefix prefix (prefix ++ rest) ≡ true
unfolding is_prefix
is_prefix-append [] rest = refl
is_prefix-append (c ∷ prefix) rest = ground (arith, is_prefix-append prefix rest)

has_prefix_in-BeginsWith :
    (texts : List String) (line : Line) → has_prefix_in texts line ≡ true → BeginsWith texts line
unfolding has_prefix_in
has_prefix_in-BeginsWith [] line h = absurd cc
has_prefix_in-BeginsWith (text ∷ texts) line h = elim (Bool-cases (is_prefix (codes text) line)) [
  | inl here ↦ let (rest, e) = is_prefix-rest (codes text) line here in (text, inl refl, rest, e)
  | inr later ↦
      let (other, i, rest, e) = has_prefix_in-BeginsWith texts line (rw later at h) in
      (other, inr i, rest, e)
]

BeginsWith-has_prefix_in :
    (texts : List String) (line : Line) → BeginsWith texts line → has_prefix_in texts line ≡ true
unfolding has_prefix_in
BeginsWith-has_prefix_in [] line (text, i, rest, e) = absurd i
BeginsWith-has_prefix_in (first ∷ texts) line (text, inl same, rest, e) =
    rw (e, same, is_prefix-append (codes text) rest) refl
BeginsWith-has_prefix_in (first ∷ texts) line (text, inr i, rest, e) =
    ground (arith, BeginsWith-has_prefix_in texts line (text, i, rest, e))

pub keep-IsFiltered : (fs : List Frame) → IsFiltered fs (keep is_user_frame fs)
unfolding keep is_library_stack_frame
keep-IsFiltered [] = IsFiltered.done
keep-IsFiltered (frame ∷ fs) = elim (Bool-cases (has_prefix_in library_functions frame.0)) [
  | inl library ↦ rw library (
      IsFiltered.drops frame fs _ (has_prefix_in-BeginsWith library_functions frame.0 library)
        (keep-IsFiltered fs))
  | inr user ↦ rw user (
      IsFiltered.keeps frame fs _
        (λ begins. cc (user, BeginsWith-has_prefix_in library_functions frame.0 begins))
        (keep-IsFiltered fs))
]
