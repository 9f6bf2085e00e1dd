-- ===== src/Util/Lines/Laws.antt =====
-- Which lines fread_lines hands to the function that it calls.
use libedio.Base.{
  ℕ, zero, suc, ◌+◌, ◌-◌, ◌<◌, ◌≡◌, ◌≢◌, ◌∙◌, refl, ap, sym, arith, Option, some, List, [], ◌∷◌,
  ◌++◌,
}
use libedio.Base.{false, ◌==◌, Bool-cases, ◌>>=◌, pos, inl, inr}
use mathlib.Core.Path.{subst}
use mathlib.Core.List.{append_assoc, append-nil}
use libedio.Text.{length, drop, c_string}
use libedio.Text.Laws.{
  Without, length-append, Without-prefix, Without-suffix, Without-append, c_string-append,
}
use libedio.Util.Lines.{szbuf, take_line, lines_loop, fread_lines}

-- How a line of at most `room` characters ends, where `rest` follows it in the file.
pub data Ends (room : ℕ) (line rest : List ℕ) : Type 0 where
  newline : (body : List ℕ) → line ≡ body ++ b'\n' ∷ [] → Without b'\n' body → Ends room line rest
  full : Without b'\n' line → length line ≡ room → Ends room line rest
  last : Without b'\n' line → rest ≡ [] → Ends room line rest

-- What fgets leaves and takes is the file.
take_line-append :
    (room : ℕ) (file : List ℕ) → (take_line room file).0 ++ (take_line room file).1 ≡ file
unfolding take_line
take_line-append zero file = refl
take_line-append (suc room) [] = refl
take_line-append (suc room) (c ∷ cs) = elim (Bool-cases (c == b'\n')) [
  | inl at_end ↦ rw at_end refl
  | inr within ↦ rw within (ap (λ (xs : List ℕ). c ∷ xs) (take_line-append room cs))
]

take_line-Ends :
    (room : ℕ) (file : List ℕ) → Ends room (take_line room file).0 (take_line room file).1
unfolding take_line
take_line-Ends zero file = full tt refl
take_line-Ends (suc room) [] = last tt refl
take_line-Ends (suc room) (c ∷ cs) = elim (Bool-cases (c == b'\n')) [
  | inl at_end ↦ rw at_end (newline [] (ap (λ (x : ℕ). x ∷ []) (ground arith)) tt)
  | inr within ↦
      let other : c ≢ b'\n' = ground arith in
      rw within (elim (take_line-Ends room cs) [
        | newline body e w ↦ newline (c ∷ body) (ap (λ (xs : List ℕ). c ∷ xs) e) (other, w)
        | full w e ↦ full (other, w) (omega (arith, e))
        | last w e ↦ last (other, w) e
      ])
]

take_line-length :
    (room c : ℕ) (cs : List ℕ) → length (take_line (suc room) (c ∷ cs)).1 < length (c ∷ cs)
unfolding take_line
take_line-length room c cs = elim (Bool-cases (c == b'\n')) [
  | inl at_end ↦ rw at_end (omega arith)
  | inr within ↦ rw within (
      omega (
        arith,
        ap length (take_line-append room cs),
        length-append (take_line room cs).0 (take_line room cs).1,
      ))
]

-- a function that keeps the position and the string of each call
abbrev pub note : List (ℕ × List ℕ) → ℕ → List ℕ → ℕ → Option (List (ℕ × List ℕ))
note seen position mem size = c_string mem >>= λ s. some (seen ++ (position, s) ∷ [])

-- The calls go through a file from a position on, a line for each, at the line's own position.
pub data Covers : List ℕ → ℕ → List (ℕ × List ℕ) → Type 0 where
  at_end : (position : ℕ) → Covers [] position []
  next_line :
      (file : List ℕ) (position : ℕ) (s rest : List ℕ) (visits : List (ℕ × List ℕ))
      → file ≡ s ++ rest
      → Ends (szbuf - 1) s rest
      → 0 < length s
      → Covers rest (position + length s) visits
      → Covers file position ((position, s) ∷ visits)

lines_loop-Covers :
    (fuel : ℕ) (seen : List (ℕ × List ℕ)) (position : ℕ) (buffer file : List ℕ)
    → Without 0 file
    → length file < fuel
    → (visits : List (ℕ × List ℕ)) × (lines_loop note fuel seen position buffer file
        ≡ some (seen ++ visits))
      × Covers file position visits
unfolding lines_loop
lines_loop-Covers zero seen position buffer file w h = absurd (omega arith)
lines_loop-Covers (suc fuel) seen position buffer [] w h =
    ([], ap some (sym (append-nil seen)), at_end position)
lines_loop-Covers (suc fuel) seen position buffer (c ∷ cs) w h =
    let taken : List ℕ × List ℕ = take_line (szbuf - 1) (c ∷ cs) in
    let whole : taken.0 ++ taken.1 ≡ c ∷ cs = take_line-append (szbuf - 1) (c ∷ cs) in
    let clean : Without 0 (taken.0 ++ taken.1) = subst (Without 0) (sym whole) w in
    let mem : List ℕ = taken.0 ++ 0 ∷ drop (length taken.0 + 1) buffer in
    let shorter : length taken.1 < length (c ∷ cs) = take_line-length 4998 c cs in
    let there : 0 < length taken.0 =
      omega (arith, ap length whole, length-append taken.0 taken.1, shorter) in
    let read : c_string mem ≡ some taken.0 =
      c_string-append taken.0 _ (Without-prefix 0 taken.0 taken.1 clean) in
    let (visits, e, covers) =
      lines_loop-Covers fuel (seen ++ (position, taken.0) ∷ []) (position + length taken.0) mem
        taken.1 (Without-suffix 0 taken.0 taken.1 clean) (omega (arith, shorter)) in
    (
      (position, taken.0) ∷ visits,
      rw read (e ∙ ap some (append_assoc seen ((position, taken.0) ∷ []) visits)),
      next_line (c ∷ cs) position taken.0 taken.1 visits (sym whole) (take_line-Ends _ (c ∷ cs))
          there covers,
    )

-- For a file without zero bytes, fread_lines reaches the end of the file and returns 0. It has called
-- the function once for each line, in order, with the line's position and the whole line: up to and
-- with its newline, or 4999 characters of it, or up to the end of the file.
pub fread_lines-Covers :
    (buffer file : List ℕ) (start : ℕ)
    → Without 0 file
    → (visits : List (ℕ × List ℕ)) × (fread_lines note (some buffer) [] start file
        ≡ some (pos 0, visits))
      × Covers file start visits
unfolding fread_lines
fread_lines-Covers buffer file start w =
    let (visits, e, covers) =
      lines_loop-Covers (length file + 1) [] start buffer file w (omega arith) in
    (visits, rw e refl, covers)

-- fgets takes a line that its room is enough for whole.
pub take_line-newline :
    (room : ℕ) (body rest : List ℕ)
    → Without b'\n' body
    → length body < room
    → take_line room (body ++ b'\n' ∷ rest) ≡ (body ++ b'\n' ∷ [], rest)
unfolding take_line
take_line-newline zero body rest w h = absurd (omega arith)
take_line-newline (suc room) [] rest w h = refl
take_line-newline (suc room) (c ∷ cs) rest w h =
    let other : (c == b'\n') ≡ false = ground (arith, w.0) in
    rw (other, take_line-newline room cs rest w.1 (omega arith)) refl

module _ {ℓ} {S : Type ℓ} (process : S → ℕ → List ℕ → ℕ → Option S) (fuel : ℕ) (s s' : S)
    (position : ℕ) (buffer : List ℕ) where
  -- the buffer of fread_lines after a line
  abbrev pub holding : List ℕ → List ℕ
  holding line = line ++ 0 ∷ drop (length line + 1) buffer

  lines_loop_round :
      (c : ℕ) (cs line rest : List ℕ)
      → take_line (szbuf - 1) (c ∷ cs) ≡ (line, rest)
      → Without 0 line
      → process s position (holding line) (length line) ≡ some s'
      → lines_loop process (suc fuel) s position buffer (c ∷ cs)
        ≡ lines_loop process fuel s' (position + length line) (holding line) rest
  unfolding lines_loop
  lines_loop_round c cs line rest taken w e =
      rw (taken, c_string-append line (drop (length line + 1) buffer) w, e) refl

  -- A round of fread_lines at a line that fits, where the function that it calls returns.
  pub lines_loop-line :
      (body rest : List ℕ)
      → Without b'\n' body
      → Without 0 body
      → length body < szbuf - 1
      → process s position (holding (body ++ b'\n' ∷ [])) (length (body ++ b'\n' ∷ [])) ≡ some s'
      → lines_loop process (suc fuel) s position buffer (body ++ b'\n' ∷ rest)
        ≡ lines_loop process fuel s'
            (position + length (body ++ b'\n' ∷ []))
            (holding (body ++ b'\n' ∷ []))
            rest
  lines_loop-line [] rest w w' h e =
      lines_loop_round b'\n' rest (b'\n' ∷ []) rest (take_line-newline (szbuf - 1) [] rest w h)
        (omega arith) e
  lines_loop-line (c ∷ cs) rest w w' h e =
      lines_loop_round c (cs ++ b'\n' ∷ rest) ((c ∷ cs) ++ b'\n' ∷ []) rest
        (take_line-newline (szbuf - 1) (c ∷ cs) rest w h)
        (Without-append 0 (c ∷ cs) (b'\n' ∷ []) w' (omega arith)) e
