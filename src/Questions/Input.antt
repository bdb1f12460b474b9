-- ===== src/Questions/Input.antt =====
-- The lines that the questions read. Each question makes a new `bufio.Reader` over the standard
-- input, which reads whole chunks and is thrown away after its first line.
use k3os.Base.{List, [], ◌∷◌, ◌++◌, Bool, false, ◌||◌, ◌==◌, if◌then◌else◌}
use k3os.Base.Text.{Text}

abbrev pub newline : Text
newline = 10 ∷ []

has_newline : Text → Bool
has_newline [] = false
has_newline (c ∷ s) = c == 10 || has_newline s

first_line : Text → Text
first_line [] = []
first_line (c ∷ s) = let rest = first_line s in if c == 10 then c ∷ [] else c ∷ rest

-- What the `ReadString('\n')` calls return one after another, from the chunks that the reads of the
-- standard input return: what follows a line in its chunk is lost with the reader. `pending` is what
-- the current reader has read without a newline.
unfoldable pub lines_of : Text → List Text → List Text
unfolding has_newline first_line
lines_of pending [] = []
lines_of pending (chunk ∷ chunks) =
    if has_newline chunk
    then (pending ++ first_line chunk) ∷ lines_of [] chunks
    else lines_of (pending ++ chunk) chunks
