-- ===== src/Util/Hex/Bounds.antt =====
-- What parse_hex_buf may write and return for any string of ASCII characters.
use libedio.Base.{
  ℕ, suc, ◌+◌, ◌*◌, ◌%◌, ◌≤◌, ◌<◌, ◌≡◌, ◌∙◌, refl, arith, Option, none, some, List, [], ◌∷◌, ◌⊎◌,
  inl, inr,
}
use libedio.Base.{
  true, false, ltb, ◌==◌, le→ltb, ltb→lt, ltb→le, Bool-cases, if◌then◌else◌, Buffer, ℤ, pos, negsuc,
  load_lem, store_lem, update, update-IsBytes, IsBytes,
}
use libedio.Text.{length, starts_with}
use libedio.Util.Hex.{er, valmap, put_digit, hex_loop, parse_hex_buf}

abbrev pub IsAscii : List ℕ → Type 0
IsAscii [] = Unit {0}
IsAscii (c ∷ cs) = (c < 128) × IsAscii cs

-- What the parser leaves in the buffer: bytes still, and nothing new from `szbuf` on.
pub record Kept (szbuf : ℕ) (buf b : Buffer) : Type 0 where
  pub cap : b.cap ≡ buf.cap
  pub bytes : IsBytes b.byte
  pub behind : (i : ℕ) → szbuf ≤ i → b.byte i ≡ buf.byte i

-- The result is a number of bytes that `szbuf` allows.
pub record Parsed (szbuf : ℕ) (buf : Buffer) (r : Option (ℤ × Buffer)) : Type 0 where
  pub n : ℕ
  pub buffer : Buffer
  pub small : n ≤ szbuf
  pub kept : Kept szbuf buf buffer
  pub returns : r ≡ some (pos n, buffer)

Kept-refl : (szbuf : ℕ) (buf : Buffer) → IsBytes buf.byte → Kept szbuf buf buf
Kept-refl szbuf buf bytes = record { cap = refl; bytes = bytes; behind = λ i h. refl }

-- A digit is stored where there is room.
put_digit_kept :
    (buf : Buffer) (szbuf ret val len : ℕ)
    → IsBytes buf.byte
    → ret < szbuf
    → szbuf ≤ buf.cap
    → (b : Buffer) × (put_digit buf ret val len ≡ some b) × Kept szbuf buf b
unfolding put_digit
put_digit_kept buf szbuf ret val len bytes room fits = elim (Bool-cases (len % 2 == 0)) [
  | inl lower ↦ (
    record buf { byte = update buf.byte ret ((buf.byte ret + val) % 256) },
    rw (lower, load_lem buf ret (omega arith))
        (store_lem buf ret (buf.byte ret + val) (omega arith)),
    record {
      cap = refl;
      bytes = update-IsBytes buf.byte ret _ bytes (omega arith);
      behind = λ i h. ground arith;
    },
  )
  | inr upper ↦ (
    record buf { byte = update buf.byte ret (val * 16 % 256) },
    rw upper (store_lem buf ret (val * 16) (omega arith)),
    record {
      cap = refl;
      bytes = update-IsBytes buf.byte ret _ bytes (omega arith);
      behind = λ i h. ground arith;
    },
  )
]

Parsed-after :
    (szbuf : ℕ) (buf b : Buffer) (r : Option (ℤ × Buffer))
    → Kept szbuf buf b
    → Parsed szbuf b r
    → Parsed szbuf buf r
Parsed-after szbuf buf b r k p = record {
  n = p.n;
  buffer = p.buffer;
  small = p.small;
  kept = record {
    cap = p.kept.cap ∙ k.cap;
    bytes = p.kept.bytes;
    behind = λ i low. p.kept.behind i low ∙ k.behind i low;
  };
  returns = p.returns;
}

stops :
    (buf : Buffer) (szbuf ret : ℕ)
    → IsBytes buf.byte
    → ret ≤ szbuf
    → Parsed szbuf buf (some (pos ret, buf))
stops buf szbuf ret bytes h = record {
  n = ret;
  buffer = buf;
  small = h;
  kept = Kept-refl szbuf buf bytes;
  returns = refl;
}

-- The loop faults only at a character that is not ASCII.
hex_loop-Parsed :
    (cs : List ℕ) (len : ℕ) (buf : Buffer) (szbuf ret : ℕ)
    → IsBytes buf.byte
    → ret ≤ szbuf
    → szbuf ≤ buf.cap
    → ((¬ IsAscii cs) × (hex_loop cs len buf szbuf ret ≡ none))
      ⊎ Parsed szbuf buf (hex_loop cs len buf szbuf ret)
unfolding hex_loop
hex_loop-Parsed [] len buf szbuf ret bytes room fits = inr (stops buf szbuf ret bytes room)
hex_loop-Parsed (c ∷ cs) len buf szbuf ret bytes room fits = elim (Bool-cases (ltb ret szbuf)) [
  | inr full ↦ rw full (inr (stops buf szbuf ret bytes room))
  | inl below ↦ elim (Bool-cases (ltb c 128)) [
    | inr beyond ↦ rw (below, beyond) (inl ((λ ascii. omega (arith, ltb→le _ _ beyond)), refl))
    | inl ascii ↦ elim (Bool-cases (valmap c == er)) [
      | inl other ↦ rw (below, ascii, other) (inr (stops buf szbuf ret bytes room))
      | inr digit ↦
          let (b, e, k) =
            put_digit_kept buf szbuf ret (valmap c) (len + 1) bytes (ltb→lt _ _ below) fits in
          rw (below, ascii, digit, e)
            (elim (hex_loop-Parsed cs (len + 1) b szbuf
              (if (len + 1) % 2 == 0 then ret + 1 else ret) k.bytes
              (ground (arith, ltb→lt _ _ below)) (omega (arith, k.cap))) [
                | inl stuck ↦ inl ((λ all. stuck.0 all.1), stuck.1)
                | inr p ↦ inr (Parsed-after szbuf buf b _ k p)
              ])
    ]
  ]
]

-- What a call of parse_hex_buf comes to.
pub data Outcome (cstr : List ℕ) (szbuf : ℕ) (buf : Buffer) (r : Option (ℤ × Buffer)) : Type 0 where
  refused : r ≡ some (negsuc 0, buf) → Outcome cstr szbuf buf r
  parsed : Parsed szbuf buf r → Outcome cstr szbuf buf r
  not_ascii : (¬ IsAscii cstr) → r ≡ none → Outcome cstr szbuf buf r

-- For a string and its length, parse_hex_buf returns -1 with the buffer as it was, or a number from 0
-- to `szbuf`; then it has written only before `szbuf`. Its assertions fail only for a string with a
-- character that is not ASCII.
pub parse_hex_buf-Outcome :
    (cstr : List ℕ) (buf : Buffer) (szbuf : ℕ)
    → IsBytes buf.byte
    → szbuf ≤ buf.cap
    → Outcome cstr szbuf buf (parse_hex_buf (some cstr) (length cstr) buf szbuf)
unfolding parse_hex_buf
parse_hex_buf-Outcome [] buf szbuf bytes fits = parsed (stops buf szbuf 0 bytes (omega arith))
parse_hex_buf-Outcome (a ∷ []) buf szbuf bytes fits = refused refl
parse_hex_buf-Outcome (a ∷ b ∷ []) buf szbuf bytes fits = refused refl
parse_hex_buf-Outcome (a ∷ b ∷ c ∷ cs) buf szbuf bytes fits =
    let n : ℕ = length cs in
    let some_there : (suc (suc (suc n)) == 0) ≡ false = ground arith in
    let long : ltb (suc (suc (suc n))) 3 ≡ false = le→ltb _ _ (omega arith) in
    let measured : (suc (suc (suc n)) == suc (suc (suc n))) ≡ true = ground arith in
    elim (Bool-cases (starts_with (b'0' ∷ b'x' ∷ []) (a ∷ b ∷ c ∷ cs))) [
      | inr other ↦ refused (rw (some_there, long, measured, other) refl)
      | inl prefixed ↦
          rw (some_there, long, measured, prefixed)
            (elim (hex_loop-Parsed (c ∷ cs) 0 buf szbuf 0 bytes (omega arith) fits) [
              | inl stuck ↦ not_ascii (λ all. stuck.0 all.1.1) stuck.1
              | inr p ↦ parsed p
            ])
    ]
