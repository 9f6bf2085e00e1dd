-- ===== src/Util/Hex/Laws.antt =====
-- What parse_hex_buf reads and writes.
use libedio.Base.{
  ℕ, suc, ◌+◌, ◌*◌, ◌/◌, ◌%◌, ◌≤◌, ◌<◌, ◌≡◌, ◌∙◌, refl, ap, arith, some, List, [], ◌∷◌,
}
use libedio.Base.{
  true, false, ◌==◌, lt→ltb, le→ltb, if◌then◌else◌, ◌>>=◌, Buffer, pos, load_lem, store_lem, update,
}
use libedio.Base.{◌⊎◌, inl, inr, ltb, ◌-◌}
use mathlib.Core.Path.{fun_ext}
use libedio.Text.{length}
use libedio.Text.Print.{hex_digit}
use libedio.Util.Hex.{er, valmap, put_digit, hex_loop, parse_hex_buf}

-- the digit `d` as a character, in either case
abbrev IsHexDigit : ℕ → ℕ → Type 0
IsHexDigit c d = (c ≡ hex_digit d) ⊎ (c ≡ (if ltb d 10 then b'0' + d else b'a' + (d - 10)))

-- two digits for each byte, the upper one first
abbrev pub IsHexText : List ℕ → List ℕ → Type 0
IsHexText [] [] = Unit {0}
IsHexText [] (x ∷ xs) = ⊥
IsHexText (c ∷ []) xs = ⊥
IsHexText (c ∷ e ∷ cs) [] = ⊥
IsHexText (c ∷ e ∷ cs) (x ∷ xs) = IsHexDigit c (x / 16) × IsHexDigit e (x % 16) × IsHexText cs xs

abbrev pub AllBytes : List ℕ → Type 0
AllBytes [] = Unit {0}
AllBytes (x ∷ xs) = (x < 256) × AllBytes xs

-- memory with the bytes of a list from `off` on
abbrev pub filled : (ℕ → ℕ) → ℕ → List ℕ → ℕ → ℕ
filled m off [] = m
filled m off (x ∷ xs) = filled (update m off x) (off + 1) xs

valmap-IsHexDigit : (c d : ℕ) → IsHexDigit c d → d < 16 → valmap c ≡ d
valmap-IsHexDigit c d digit h = elim digit [
  | inl upper ↦ ground (arith, upper)
  | inr lower ↦ ground (arith, lower)
]

IsHexDigit-lt : (c d : ℕ) → IsHexDigit c d → d < 16 → c < 128
IsHexDigit-lt c d digit h = elim digit [
  | inl upper ↦ ground (arith, upper)
  | inr lower ↦ ground (arith, lower)
]

put_high :
    (buf : Buffer) (ret d len : ℕ)
    → len % 2 ≡ 0
    → ret < buf.cap
    → put_digit buf ret d (len + 1)
      ≡ some (record buf { byte = update buf.byte ret (d * 16 % 256) })
unfolding put_digit
put_high buf ret d len even room =
    let upper : ((len + 1) % 2 == 0) ≡ false = ground arith in
    rw upper (store_lem buf ret (d * 16) room)

put_low :
    (buf : Buffer) (ret d len : ℕ)
    → len % 2 ≡ 1
    → ret < buf.cap
    → put_digit buf ret d (len + 1)
      ≡ some (record buf { byte = update buf.byte ret ((buf.byte ret + d) % 256) })
unfolding put_digit
put_low buf ret d len odd room =
    let lower : ((len + 1) % 2 == 0) ≡ true = ground arith in
    rw (lower, load_lem buf ret room) (store_lem buf ret (buf.byte ret + d) room)

-- One round at a digit.
step_digit :
    (c d len : ℕ) (cs : List ℕ) (buf : Buffer) (szbuf ret : ℕ)
    → IsHexDigit c d
    → d < 16
    → ret < szbuf
    → hex_loop (c ∷ cs) len buf szbuf ret ≡ (
        put_digit buf ret d (len + 1) >>= λ buf'.
        hex_loop cs (len + 1) buf' szbuf (if (len + 1) % 2 == 0 then ret + 1 else ret))
unfolding hex_loop
step_digit c d len cs buf szbuf ret digit h room =
    let known : (d == er) ≡ false = ground arith in
    rw
      (
        lt→ltb ret szbuf room,
        lt→ltb c 128 (IsHexDigit-lt c d digit h),
        valmap-IsHexDigit c d digit h,
        known,
      )
      refl

-- Two rounds at the digits of a byte.
step_byte :
    (a b x len : ℕ) (cs : List ℕ) (buf : Buffer) (szbuf ret : ℕ)
    → IsHexDigit a (x / 16)
    → IsHexDigit b (x % 16)
    → x < 256
    → len % 2 ≡ 0
    → ret < szbuf
    → szbuf ≤ buf.cap
    → hex_loop (a ∷ b ∷ cs) len buf szbuf ret
      ≡ hex_loop cs (len + 1 + 1) (record buf { byte = update buf.byte ret x }) szbuf (ret + 1)
step_byte a b x len cs buf szbuf ret first second h even room fits =
    let half : Buffer = record buf { byte = update buf.byte ret (x / 16 * 16 % 256) } in
    let upper : ((len + 1) % 2 == 0) ≡ false = ground arith in
    let lower : ((len + 1 + 1) % 2 == 0) ≡ true = ground arith in
    rw
      (
        step_digit a (x / 16) len (b ∷ cs) buf szbuf ret first (omega arith) room,
        put_high buf ret (x / 16) len even (omega arith),
        upper,
        step_digit b (x % 16) (len + 1) cs half szbuf ret second (omega arith) room,
        put_low half ret (x % 16) (len + 1) (omega arith) (omega arith),
        lower,
      )
      (ap (λ (m : ℕ → ℕ). hex_loop cs (len + 1 + 1) (record buf { byte = m }) szbuf (ret + 1))
        (fun_ext λ j. ground arith))

hex_loop-IsHexText :
    (cs xs : List ℕ) (len : ℕ) (buf : Buffer) (szbuf ret : ℕ)
    → IsHexText cs xs
    → AllBytes xs
    → len % 2 ≡ 0
    → ret + length xs ≤ szbuf
    → szbuf ≤ buf.cap
    → hex_loop cs len buf szbuf ret
      ≡ some (pos (ret + length xs), record buf { byte = filled buf.byte ret xs })
unfolding hex_loop
hex_loop-IsHexText [] [] len buf szbuf ret text all even room fits =
    ap (λ n. some (pos n, buf)) (omega arith)
hex_loop-IsHexText [] (x ∷ xs) len buf szbuf ret text all even room fits = absurd text
hex_loop-IsHexText (c ∷ []) xs len buf szbuf ret text all even room fits = absurd text
hex_loop-IsHexText (c ∷ e ∷ cs) [] len buf szbuf ret text all even room fits = absurd text
hex_loop-IsHexText (c ∷ e ∷ cs) (x ∷ xs) len buf szbuf ret text all even room fits =
    step_byte c e x len cs buf szbuf ret text.0 text.1 all.0 even (omega arith) fits
    ∙ hex_loop-IsHexText cs xs (len + 1 + 1) (record buf { byte = update buf.byte ret x }) szbuf
        (ret + 1) text.2 all.1 (omega arith) (omega arith) fits
    ∙ ap (λ n. some (pos n, record buf { byte = filled buf.byte ret (x ∷ xs) })) (omega arith)

-- A string of '0x' and two hexadecimal digits, each in upper or lower case, for each byte of a list
-- that is not empty is parsed to these bytes where the buffer has room for them: the result is
-- their number, they stand at the head of the buffer in order, and the bytes behind them are as
-- they were.
pub parse_hex_buf-IsHexText :
    (cs : List ℕ) (x : ℕ) (xs : List ℕ) (buf : Buffer) (szbuf : ℕ)
    → IsHexText cs (x ∷ xs)
    → AllBytes (x ∷ xs)
    → length (x ∷ xs) ≤ szbuf
    → szbuf ≤ buf.cap
    → parse_hex_buf (some (b'0' ∷ b'x' ∷ cs)) (2 + length cs) buf szbuf
      ≡ some (pos (length (x ∷ xs)), record buf { byte = filled buf.byte 0 (x ∷ xs) })
unfolding parse_hex_buf
parse_hex_buf-IsHexText [] x xs buf szbuf text all room fits = absurd text
parse_hex_buf-IsHexText (c ∷ []) x xs buf szbuf text all room fits = absurd text
parse_hex_buf-IsHexText (c ∷ e ∷ cs) x xs buf szbuf text all room fits =
    let n : ℕ = length cs in
    let some_there : (2 + suc (suc n) == 0) ≡ false = ground arith in
    let measured : (suc (suc (suc (suc n))) == 2 + suc (suc n)) ≡ true = ground arith in
    rw (some_there, le→ltb (2 + suc (suc n)) 3 (omega arith), measured)
      (hex_loop-IsHexText (c ∷ e ∷ cs) (x ∷ xs) 0 buf szbuf 0 text all (omega arith) (omega arith)
          fits
        ∙ ap (λ k. some (pos k, record buf { byte = filled buf.byte 0 (x ∷ xs) })) (omega arith))
