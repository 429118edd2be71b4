-- ===== src/StackTrace/Frames.antt =====
-- `cleanStackTrace` of process.go as a filter of frames, and the lines that it works on.
use xwork.Prelude.{ℕ, false, ◌≢◌, List, [], ◌∷◌, ◌++◌, ◌≡◌, refl, ap, ◌∙◌, arith, eqb, keep, All}
use xwork.StackTrace.Library.{Line, Frame, is_user_frame, IsFiltered, keep-IsFiltered}
use xwork.StackTrace.{
  clean_lines, newline, split_lines, join_lines, filter_frames, with_file_line, clean_stack_trace,
  join_trace, trim_newlines,
}

abbrev pub frames : List Line → List Frame
frames [] = []
frames (func_line ∷ []) = (func_line, []) ∷ []
frames (func_line ∷ file_line ∷ lines) = (func_line, file_line) ∷ frames lines

abbrev pub frame_lines : List Frame → List Line
frame_lines [] = []
frame_lines ((func_line, file_line) ∷ rest) =
    func_line ∷ with_file_line file_line (frame_lines rest)

filter_frames_lem :
    (lines : List Line) → filter_frames lines ≡ frame_lines (keep is_user_frame (frames lines))
unfolding filter_frames keep
filter_frames_lem [] = refl
filter_frames_lem (func_line ∷ []) = ground arith
filter_frames_lem (func_line ∷ file_line ∷ lines) = ground (arith, filter_frames_lem lines)

-- the text of the header and the frames that are left, empty where there are none
abbrev pub text_left : Line → List Frame → List ℕ
text_left header [] = []
text_left header (frame ∷ left) = join_lines (header ∷ frame_lines (frame ∷ left))

join_trace-text_left :
    (header : Line) (left : List Frame)
    → join_trace header (frame_lines left) ≡ text_left header left
join_trace-text_left header [] = refl
join_trace-text_left header ((func_line, file_line) ∷ left) = refl

-- A line has no newline.
abbrev pub IsLine : Line → Type 0
IsLine line = All (λ c. eqb c newline ≡ false) line

split_line :
    (line : Line) (rest : List ℕ)
    → IsLine line
    → split_lines (line ++ newline ∷ rest) ≡ line ∷ split_lines rest
unfolding split_lines
split_line [] rest h = refl
split_line (c ∷ line) rest h = rw (h.0, split_line line rest h.1) refl

split_last : (line : Line) → IsLine line → split_lines line ≡ line ∷ []
unfolding split_lines
split_last [] h = refl
split_last (c ∷ line) h = rw (h.0, split_last line h.1) refl

split_lines-join_lines :
    (line : Line) (lines : List Line)
    → IsLine line
    → All IsLine lines
    → split_lines (join_lines (line ∷ lines)) ≡ line ∷ lines
unfolding join_lines
split_lines-join_lines line [] h hs = split_last line h
split_lines-join_lines line (next ∷ lines) h hs =
    split_line line (join_lines (next ∷ lines)) h
    ∙ ap (◌∷◌ line) (split_lines-join_lines next lines hs.0 hs.1)

-- the lines of a frame, both there
abbrev pub IsFrame : Frame → Type 0
IsFrame frame = IsLine frame.0 × (frame.0 ≢ []) × IsLine frame.1 × (frame.1 ≢ [])

frames-frame_lines : (fs : List Frame) → All IsFrame fs → frames (frame_lines fs) ≡ fs
frames-frame_lines [] h = refl
frames-frame_lines ((func_line, []) ∷ fs) h = absurd (h.0.3 refl)
frames-frame_lines ((func_line, c ∷ cs) ∷ fs) h =
    ap (◌∷◌ (func_line, c ∷ cs)) (frames-frame_lines fs h.1)

frame_lines-All :
    (fs : List Frame) → All IsFrame fs → All (λ line. IsLine line × (line ≢ [])) (frame_lines fs)
frame_lines-All [] h = tt
frame_lines-All ((func_line, []) ∷ fs) h = absurd (h.0.3 refl)
frame_lines-All ((func_line, c ∷ cs) ∷ fs) h =
    ((h.0.0, h.0.1), ((h.0.2, h.0.3), frame_lines-All fs h.1))

trim_line : (line : Line) → IsLine line → trim_newlines line ≡ line
unfolding trim_newlines
trim_line [] h = refl
trim_line (c ∷ []) h = rw (h.0) refl
trim_line (c ∷ d ∷ line) h = ground (arith, trim_line (d ∷ line) h.1)

trim_cons :
    (c : ℕ) (text : List ℕ)
    → trim_newlines text ≡ text
    → text ≢ []
    → trim_newlines (c ∷ text) ≡ c ∷ text
unfolding trim_newlines
trim_cons c [] h k = absurd (k refl)
trim_cons c (d ∷ text) h k = ground (arith, h)

trim_append :
    (line text : List ℕ)
    → trim_newlines text ≡ text
    → text ≢ []
    → trim_newlines (line ++ text) ≡ line ++ text
trim_append [] text h k = h
trim_append (c ∷ []) text h k = trim_cons c text h k
trim_append (c ∷ d ∷ line) text h k =
    trim_cons c (d ∷ line ++ text) (trim_append (d ∷ line) text h k) (λ e. cc)

append_newline : (text : List ℕ) → trim_newlines (text ++ newline ∷ []) ≡ trim_newlines text
unfolding trim_newlines
append_newline [] = refl
append_newline (c ∷ text) = ground (arith, append_newline text)

join_full : (line : Line) (lines : List Line) → line ≢ [] → join_lines (line ∷ lines) ≢ []
unfolding join_lines
join_full [] lines h = absurd (h refl)
join_full (c ∷ line) [] h = λ e. cc
join_full (c ∷ line) (next ∷ lines) h = λ e. cc

trim_join :
    (line : Line) (lines : List Line)
    → IsLine line
    → All (λ l. IsLine l × (l ≢ [])) lines
    → trim_newlines (join_lines (line ∷ lines)) ≡ join_lines (line ∷ lines)
unfolding join_lines
trim_join line [] h hs = trim_line line h
trim_join line (next ∷ lines) h hs =
    trim_append line (newline ∷ join_lines (next ∷ lines))
      (trim_cons newline (join_lines (next ∷ lines)) (trim_join next lines hs.0.0 hs.1)
        (join_full next lines hs.0.1))
      (λ e. cc)

All-map : {P Q : Line → Type 0} → ((l : Line) → P l → Q l) → (ls : List Line) → All P ls → All Q ls
All-map f [] h = tt
All-map f (l ∷ ls) h = (f l h.0, All-map f ls h.1)

clean_nonempty :
    (text : List ℕ)
    → clean_stack_trace (text ++ newline ∷ []) ≡ clean_lines (split_lines (trim_newlines text))
unfolding clean_stack_trace
clean_nonempty [] = rw (append_newline []) refl
clean_nonempty (c ∷ text) = rw (append_newline (c ∷ text)) refl

-- For a header line and frames of two lines, none with a newline in it and the frames' lines not
-- empty, `cleanStackTrace` of their lines, joined by newlines and ended by one, is the header and
-- the lines of the frames that are left, joined by newlines, and empty if none is; those left are,
-- in order, the frames whose function's line does not begin with one of `library_functions`.
pub clean_stack_trace_lem :
    (header : Line) (fs : List Frame)
    → IsLine header
    → All IsFrame fs
    → (left : List Frame) × IsFiltered fs left
      × (clean_stack_trace (join_lines (header ∷ frame_lines fs) ++ newline ∷ [])
          ≡ text_left header left)
clean_stack_trace_lem header fs h hs =
    let full = frame_lines-All fs hs in
    (
      keep is_user_frame fs,
      keep-IsFiltered fs,
      clean_nonempty (join_lines (header ∷ frame_lines fs))
          ∙ ap (λ t. clean_lines (split_lines t)) (trim_join header (frame_lines fs) h full)
          ∙ ap clean_lines (
              split_lines-join_lines header (frame_lines fs) h
                (All-map (λ l p. p.0) (frame_lines fs) full))
          ∙ ap (join_trace header) (
              filter_frames_lem (frame_lines fs)
              ∙ ap (λ gs. frame_lines (keep is_user_frame gs)) (frames-frame_lines fs hs))
          ∙ join_trace-text_left header (keep is_user_frame fs),
    )
