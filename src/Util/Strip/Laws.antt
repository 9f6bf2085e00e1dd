-- ===== src/Util/Strip/Laws.antt =====
-- What cstr_strip leaves of a string.
use libedio.Base.{
  ℕ, zero, suc, ◌+◌, ◌-◌, ◌≤◌, ◌<◌, ◌≡◌, ◌∙◌, ◌⊎◌, inl, inr, refl, ap, sym, arith, none, some, List,
  [], ◌∷◌, ◌++◌,
}
use libedio.Base.{
  true, false, lt→ltb, le→ltb, pos, Buffer, store_lem, store-none, memmove_lem, copied, update,
}
use mathlib.Core.Path.{subst}
use native.Mathlib.Decide.{ℕ_discrete}
use libedio.Packet.Read.{offset}
use libedio.Text.{length}
use libedio.Text.Laws.{length-append}
use libedio.Util.Strip.{is_stripped, byte_of, skip_start, skip_end, kept, string_memory, cstr_strip}

-- Every character is stripped.
abbrev pub AllStripped : List ℕ → Type 0
AllStripped [] = Unit {0}
AllStripped (c ∷ cs) = (is_stripped c ≡ true) × AllStripped cs

byte_of-append : (xs ys : List ℕ) (i : ℕ) → byte_of (xs ++ ys) (length xs + i) ≡ byte_of ys i
byte_of-append [] ys i = let e : 0 + i ≡ i = omega arith in rw e refl
byte_of-append (x ∷ xs) ys i =
    let e : suc (length xs) + i ≡ suc (length xs + i) = omega arith in rw e (byte_of-append xs ys i)

pub byte_of-within : (xs ys : List ℕ) (i : ℕ) → i < length xs → byte_of (xs ++ ys) i ≡ byte_of xs i
byte_of-within [] ys i h = absurd (omega arith)
byte_of-within (x ∷ xs) ys zero h = refl
byte_of-within (x ∷ xs) ys (suc i) h = byte_of-within xs ys i (omega arith)

byte_of-AllStripped :
    (xs : List ℕ) (i : ℕ) → AllStripped xs → i < length xs → is_stripped (byte_of xs i) ≡ true
byte_of-AllStripped [] i all h = absurd (omega arith)
byte_of-AllStripped (x ∷ xs) zero all h = all.0
byte_of-AllStripped (x ∷ xs) (suc i) all h = byte_of-AllStripped xs i all.1 (omega arith)

skip_start-append :
    (a : List ℕ) (c : ℕ) (cs : List ℕ)
    → AllStripped a
    → is_stripped c ≡ false
    → skip_start (a ++ c ∷ cs) ≡ length a
unfolding skip_start
skip_start-append [] c cs all h = rw h refl
skip_start-append (x ∷ xs) c cs all h = rw (all.0, skip_start-append xs c cs all.1 h) refl

skip_start-all : (a : List ℕ) → AllStripped a → skip_start a ≡ length a
unfolding skip_start
skip_start-all [] all = refl
skip_start-all (x ∷ xs) all = rw (all.0, skip_start-all xs all.1) refl

-- The loop from behind stops at the first character, or at one that stays.
skip_end-stays :
    (orig : List ℕ) (start n k : ℕ)
    → n ≤ k
    → ((i : ℕ) → n < i → i ≤ k → is_stripped (byte_of orig (start + i)) ≡ true)
    → ((n ≡ 0) ⊎ (is_stripped (byte_of orig (start + n)) ≡ false))
    → skip_end orig start k ≡ n
unfolding skip_end
skip_end-stays orig start n zero h all stays = omega arith
skip_end-stays orig start n (suc k) h all stays = elim (ℕ_discrete n (suc k)) [
  | yes here ↦ elim stays [
    | inl e ↦ absurd (omega arith)
    | inr e ↦
        let e' : is_stripped (byte_of orig (start + suc k)) ≡ false =
          subst (λ i. is_stripped (byte_of orig (start + i)) ≡ false) here e in
        rw e' (sym here)
  ]
  | no before ↦
      rw (all (suc k) (omega arith) (omega arith))
        (skip_end-stays orig start n k (omega arith) (λ i l u. all i l (omega arith)) stays)
]

pub strip_copy : (m src : ℕ → ℕ) (n i : ℕ) → i < n → update (copied m 0 src n) n 0 i ≡ src i
strip_copy m src n i h = let e : i - 0 ≡ i = omega arith in ground (arith, ap src e)

-- memory that holds a string from `i` on, with its zero byte
abbrev pub Holds : (ℕ → ℕ) → ℕ → List ℕ → Type 0
Holds m i [] = m i ≡ 0
Holds m i (x ∷ xs) = (m i ≡ x) × Holds m (i + 1) xs

Holds-all :
    (m : ℕ → ℕ) (i : ℕ) (xs : List ℕ)
    → ((k : ℕ) → k < length xs → m (i + k) ≡ byte_of xs k)
    → m (i + length xs) ≡ 0
    → Holds m i xs
Holds-all m i [] all end = let e : i + 0 ≡ i = omega arith in rw e at end
Holds-all m i (x ∷ xs) all end =
    let here : i + 0 ≡ i = omega arith in
    (
      rw here at (all 0 (omega arith)),
      Holds-all m (i + 1) xs
          (λ k h. let e : i + 1 + k ≡ i + suc k = omega arith in rw e (all (suc k) (omega arith)))
          (let e : i + 1 + length xs ≡ i + suc (length xs) = omega arith in rw e end),
    )

module _ (a : List ℕ) (c : ℕ) (cs b : List ℕ) (blank_a : AllStripped a) (blank_b : AllStripped b)
    (first_stays : is_stripped c ≡ false)
    (last_stays : (length cs ≡ 0) ⊎ (is_stripped (byte_of (c ∷ cs) (length cs)) ≡ false)) where
  -- the string
  abbrev whole : List ℕ
  whole = a ++ ((c ∷ cs) ++ b)

  length-whole : length whole ≡ length a + suc (length cs) + length b
  length-whole = omega (arith, length-append a ((c ∷ cs) ++ b), length-append (c ∷ cs) b)

  behind_stripped :
      (i : ℕ)
      → length cs < i
      → i ≤ length cs + length b
      → is_stripped (byte_of whole (length a + i)) ≡ true
  behind_stripped i low high =
      let j : ℕ = i - suc (length cs) in
      let e : i ≡ length (c ∷ cs) + j = omega arith in
      let moved : byte_of whole (length a + i) ≡ byte_of b j =
        byte_of-append a ((c ∷ cs) ++ b) i
        ∙ subst (λ k. byte_of ((c ∷ cs) ++ b) k ≡ byte_of b j) (sym e)
            (byte_of-append (c ∷ cs) b j) in
      rw moved (byte_of-AllStripped b j blank_b (omega arith))

  last_there : (length cs ≡ 0) ⊎ (is_stripped (byte_of whole (length a + length cs)) ≡ false)
  last_there = elim last_stays [
    | inl e ↦ inl e
    | inr e ↦
        let moved : byte_of whole (length a + length cs) ≡ byte_of (c ∷ cs) (length cs) =
          byte_of-append a ((c ∷ cs) ++ b) (length cs)
          ∙ byte_of-within (c ∷ cs) b (length cs) (omega arith) in
        inr (rw moved e)
  ]

  kept-middle : kept whole ≡ (length a, length (c ∷ cs))
  unfolding kept
  kept-middle =
      let start : skip_start whole ≡ length a =
        skip_start-append a c (cs ++ b) blank_a first_stays in
      let left : length whole - 1 - length a ≡ length cs + length b = omega (arith, length-whole) in
      let one : length cs + 1 ≡ suc (length cs) = omega arith in
      rw
        (
          start,
          lt→ltb (length a) (length whole) (omega (arith, length-whole)),
          left,
          skip_end-stays whole (length a) (length cs) (length cs + length b) (omega arith)
              behind_stripped last_there,
          one,
        )
        refl

  -- A text that begins and ends with characters that are no blanks or line ends is copied without the
  -- blanks and line ends before and behind it, and with a zero byte behind it, where the text and the
  -- zero byte fit the buffer and the text fits `sz_buf`.
  pub cstr_strip-text :
      (buf : Buffer) (sz_buf : ℕ)
      → length (c ∷ cs) ≤ sz_buf
      → length (c ∷ cs) < buf.cap
      → (m : ℕ → ℕ) × (cstr_strip (some whole) (some buf) sz_buf
          ≡ some (pos 0, some (record buf { byte = m })))
        × Holds m 0 (c ∷ cs)
  unfolding cstr_strip
  cstr_strip-text buf sz_buf fits room =
      let n : ℕ = suc (length cs) in
      let src : ℕ → ℕ = λ i. byte_of whole (length a + i) in
      let m : ℕ → ℕ = copied buf.byte 0 src n in
      let m' : ℕ → ℕ = update m n 0 in
      (
        m',
        rw
            (
              le→ltb sz_buf 1 (omega (arith, fits)),
              kept-middle,
              le→ltb sz_buf n fits,
              memmove_lem buf 0 (offset (string_memory whole) (length a)) n (omega arith)
                  (omega (arith, length-whole)),
              store_lem (record buf { byte = m }) n 0 (omega arith),
            )
            refl,
        Holds-all m' 0 (c ∷ cs)
            (λ i h.
              ap m' (let e : 0 + i ≡ i = omega arith in e)
              ∙ strip_copy buf.byte src n i h
              ∙ byte_of-append a ((c ∷ cs) ++ b) i
              ∙ byte_of-within (c ∷ cs) b i h)
            (ground arith),
      )

  -- One byte of room is not tested for: where such a text has exactly `sz_buf` characters and the buffer
  -- that size, the zero byte is written behind the buffer.
  pub cstr_strip-overrun :
      (buf : Buffer) (sz_buf : ℕ)
      → length (c ∷ cs) ≡ sz_buf
      → buf.cap ≡ sz_buf
      → cstr_strip (some whole) (some buf) sz_buf ≡ none
  unfolding cstr_strip
  cstr_strip-overrun buf sz_buf fits room =
      let n : ℕ = suc (length cs) in
      let m : ℕ → ℕ = copied buf.byte 0 (λ i. byte_of whole (length a + i)) n in
      rw
        (
          le→ltb sz_buf 1 (omega (arith, fits)),
          kept-middle,
          le→ltb sz_buf n (omega (arith, fits)),
          memmove_lem buf 0 (offset (string_memory whole) (length a)) n (omega (arith, fits, room))
              (omega (arith, length-whole)),
          store-none (record buf { byte = m }) n 0 (omega (arith, fits, room)),
        )
        refl

kept-blank : (a : List ℕ) → AllStripped a → kept a ≡ (length a, 0)
unfolding kept
kept-blank a all = rw (skip_start-all a all, le→ltb (length a) (length a) (omega arith)) refl

-- A string of nothing but blanks and line ends becomes the empty string.
pub cstr_strip-blank :
    (a : List ℕ) (buf : Buffer) (sz_buf : ℕ)
    → AllStripped a
    → 1 ≤ sz_buf
    → 1 ≤ buf.cap
    → cstr_strip (some a) (some buf) sz_buf
      ≡ some (pos 0, some (record buf { byte = update buf.byte 0 0 }))
unfolding cstr_strip
cstr_strip-blank a buf sz_buf all fits room =
    rw (le→ltb sz_buf 1 fits, kept-blank a all, store_lem buf 0 0 room) refl
