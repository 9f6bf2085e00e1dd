-- ===== src/Tools/Boards/Strings.antt =====
-- Strings in memory as cb_process_brdlst_line of utils/gencctcmd.c reads them.
use libedio.Base.{ℕ, zero, suc, ◌+◌, ◌<◌, ◌≡◌, refl, arith, some, List, [], ◌∷◌}
use libedio.Base.{false, ◌==◌}
use libedio.Text.{length}
use libedio.Text.Laws.{Without}
use libedio.Util.Strip.{byte_of}
use libedio.Util.Strip.Laws.{Holds}
use libedio.Tools.Boards.{string_in}

-- A string in memory is read up to its zero byte.
pub string_in-text :
    (left : ℕ) (m : ℕ → ℕ) (xs : List ℕ)
    → Without 0 xs
    → length xs < left
    → ((k : ℕ) → k < length xs → m k ≡ byte_of xs k)
    → m (length xs) ≡ 0
    → string_in left m ≡ some xs
string_in-text zero m xs w room all end = absurd (omega arith)
string_in-text (suc left) m [] w room all end = rw end refl
string_in-text (suc left) m (x ∷ xs) w room all end =
    let here : m 0 ≡ x = all 0 (omega arith) in
    let there : (x == 0) ≡ false = ground (arith, w.0) in
    let rest : string_in left (λ i. m (i + 1)) ≡ some xs =
      string_in-text left (λ i. m (i + 1)) xs w.1 (omega arith)
        (λ k h. let e : k + 1 ≡ suc k = omega arith in rw e (all (suc k) (omega arith)))
        (let e : length xs + 1 ≡ suc (length xs) = omega arith in rw e end) in
    rw (here, there, rest) refl

Holds-byte_of :
    (m : ℕ → ℕ) (i : ℕ) (xs : List ℕ) (k : ℕ)
    → Holds m i xs
    → k < length xs
    → m (i + k) ≡ byte_of xs k
Holds-byte_of m i [] k h small = absurd (omega arith)
Holds-byte_of m i (x ∷ xs) zero h small = let e : i + 0 ≡ i = omega arith in rw e h.0
Holds-byte_of m i (x ∷ xs) (suc k) h small =
    let e : i + suc k ≡ i + 1 + k = omega arith in
    rw e (Holds-byte_of m (i + 1) xs k h.1 (omega arith))

Holds-end : (m : ℕ → ℕ) (i : ℕ) (xs : List ℕ) → Holds m i xs → m (i + length xs) ≡ 0
Holds-end m i [] h = let e : i + 0 ≡ i = omega arith in rw e h
Holds-end m i (x ∷ xs) h =
    let e : i + suc (length xs) ≡ i + 1 + length xs = omega arith in
    rw e (Holds-end m (i + 1) xs h.1)

pub string_in-Holds :
    (left : ℕ) (m : ℕ → ℕ) (xs : List ℕ)
    → Without 0 xs
    → length xs < left
    → Holds m 0 xs
    → string_in left m ≡ some xs
string_in-Holds left m xs w room h =
    string_in-text left m xs w room
      (λ k small. let e : 0 + k ≡ k = omega arith in rw e at (Holds-byte_of m 0 xs k h small))
      (let e : 0 + length xs ≡ length xs = omega arith in rw e at (Holds-end m 0 xs h))
