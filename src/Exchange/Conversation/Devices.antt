-- ===== src/Exchange/Conversation/Devices.antt =====
-- The files that utils/gencctcmd.c writes for several devices, as files that utils/edio24cli.c runs over.
use libedio.Base.{
  ℕ, zero, suc, ◌+◌, ◌-◌, ◌*◌, ◌^◌, ◌<◌, ◌≤◌, ◌≡◌, refl, sym, arith, bit_and, Option, none, some,
  List, [], ◌∷◌, ◌++◌,
}
use libedio.Base.{inl, inr, Bool-cases, ◌==◌, if◌then◌else◌}
use mathlib.Core.Option.{some-injective}
use mathlib.Core.Path.{subst}
use libedio.Text.{length}
use libedio.Text.Laws.{Without}
use libedio.Tools.Boards.{row_at}
use libedio.Tools.Command.{Line, dconfig_w, dout_w, dout_r, blank, sleep, connect_to}
use libedio.Tools.Generate.Laws.{IsRow, AllRows, for_row, for_mask}
use libedio.Exchange.Commands.Follows.{AllPrinted}
use libedio.Exchange.Conversation.{AreWrites, writes, pauses}

-- Rows that are the text of a line.
abbrev pub AllPlain : List (List ℕ) → Type 0
AllPlain [] = Unit {0}
AllPlain (s ∷ ss) = (Without b'\n' s × Without 0 s) × AllPlain ss

-- 1 for a row that is there
abbrev pub one : Option (List ℕ) → ℕ
one none = 0
one (some s) = 1

-- the number of bits of a mask from `i` on that have a row
abbrev pub devices : ℕ → ℕ → ℕ → List (List ℕ) → ℕ
devices zero i mask_c rs = 0
devices (suc left) i mask_c rs =
    (if bit_and mask_c (2 ^ i) == 0 then 0 else one (row_at rs (i - 1)))
    + devices left (i + 1) mask_c rs

one-le : (r : Option (List ℕ)) → one r ≤ 1
one-le none = omega arith
one-le (some s) = omega arith

pub devices-le : (left i mask_c : ℕ) (rs : List (List ℕ)) → devices left i mask_c rs ≤ left
devices-le zero i mask_c rs = omega arith
devices-le (suc left) i mask_c rs = elim (Bool-cases (bit_and mask_c (2 ^ i) == 0)) [
  | inl clear ↦ rw clear (omega (arith, devices-le left (i + 1) mask_c rs))
  | inr set ↦ rw set (omega (arith, devices-le left (i + 1) mask_c rs, one-le (row_at rs (i - 1))))
]

-- A file that a client runs over, with so many writes and pauses.
pub record IsFile (lines : List Line) (w p : ℕ) : Type 0 where
  pub printed : AllPrinted lines
  pub are_writes : AreWrites lines
  pub number : writes lines ≡ w
  pub paused : pauses lines ≡ p

nothing-IsFile : (w p : ℕ) → w ≡ 0 → p ≡ 0 → IsFile [] w p
nothing-IsFile w p e k = record { printed = tt; are_writes = tt; number = sym e; paused = sym k }

AllPrinted-append : (ls ms : List Line) → AllPrinted ls → AllPrinted ms → AllPrinted (ls ++ ms)
AllPrinted-append [] ms p q = q
AllPrinted-append (l ∷ ls) ms p q = (p.0, AllPrinted-append ls ms p.1 q)

AreWrites-append : (ls ms : List Line) → AreWrites ls → AreWrites ms → AreWrites (ls ++ ms)
AreWrites-append [] ms p q = q
AreWrites-append (dconfig_w mask value ∷ ls) ms p q = AreWrites-append ls ms p q
AreWrites-append (dout_w mask value ∷ ls) ms p q = AreWrites-append ls ms p q
AreWrites-append (dout_r ∷ ls) ms p q = absurd p
AreWrites-append (blank ∷ ls) ms p q = AreWrites-append ls ms p q
AreWrites-append (sleep n ∷ ls) ms p q = AreWrites-append ls ms p q
AreWrites-append (connect_to s i ∷ ls) ms p q = AreWrites-append ls ms p q

writes-append : (ls ms : List Line) → writes (ls ++ ms) ≡ writes ls + writes ms
writes-append [] ms = omega arith
writes-append (dconfig_w mask value ∷ ls) ms = omega (arith, writes-append ls ms)
writes-append (dout_w mask value ∷ ls) ms = omega (arith, writes-append ls ms)
writes-append (dout_r ∷ ls) ms = writes-append ls ms
writes-append (blank ∷ ls) ms = writes-append ls ms
writes-append (sleep n ∷ ls) ms = writes-append ls ms
writes-append (connect_to s i ∷ ls) ms = writes-append ls ms

pauses-append : (ls ms : List Line) → pauses (ls ++ ms) ≡ pauses ls + pauses ms
pauses-append [] ms = omega arith
pauses-append (dconfig_w mask value ∷ ls) ms = pauses-append ls ms
pauses-append (dout_w mask value ∷ ls) ms = pauses-append ls ms
pauses-append (dout_r ∷ ls) ms = pauses-append ls ms
pauses-append (blank ∷ ls) ms = pauses-append ls ms
pauses-append (sleep n ∷ ls) ms = omega (arith, pauses-append ls ms)
pauses-append (connect_to s i ∷ ls) ms = pauses-append ls ms

pub append-IsFile :
    (ls ms : List Line) (k d w p : ℕ)
    → IsFile ls (k * w) (k * p)
    → IsFile ms (d * w) (d * p)
    → IsFile (ls ++ ms) ((k + d) * w) ((k + d) * p)
append-IsFile ls ms k d w p f g = record {
  printed = AllPrinted-append ls ms f.printed g.printed;
  are_writes = AreWrites-append ls ms f.are_writes g.are_writes;
  number = omega (arith, writes-append ls ms, f.number, g.number);
  paused = omega (arith, pauses-append ls ms, f.paused, g.paused);
}

row_at-plain :
    (rs : List (List ℕ)) (i : ℕ) (s : List ℕ)
    → AllRows rs
    → AllPlain rs
    → row_at rs i ≡ some s
    → IsRow s × Without b'\n' s × Without 0 s
row_at-plain [] i s all plain e = absurd (cc)
row_at-plain (r ∷ rs) zero s all plain e =
    subst (λ (x : List ℕ). IsRow x × Without b'\n' x × Without 0 x) (some-injective r s e)
      (all.0, plain.0.0, plain.0.1)
row_at-plain (r ∷ rs) (suc i) s all plain e = row_at-plain rs i s all.1 plain.1 e

IsRow-short : (s : List ℕ) → IsRow s → length s < 200
IsRow-short [] h = absurd h
IsRow-short (c ∷ cs) h = h.1

-- The lines for devices, where those for each are a file.
module _ (rs : List (List ℕ)) (all : AllRows rs) (plain : AllPlain rs) (lines : List Line) (w p : ℕ)
    (f : IsFile lines w p) where
  for_row-IsFile :
      (i : ℕ) (r : Option (List ℕ))
      → row_at rs (i - 1) ≡ r
      → IsFile (for_row r i lines) (one r * w) (one r * p)
  for_row-IsFile i none e = nothing-IsFile (0 * w) (0 * p) (omega arith) (omega arith)
  for_row-IsFile i (some s) e =
      let h = row_at-plain rs (i - 1) s all plain e in
      record {
        printed = ((IsRow-short s h.0, h.1, h.2), f.printed);
        are_writes = f.are_writes;
        number = omega (arith, f.number);
        paused = omega (arith, f.paused);
      }

  -- One file for the devices, with as many writes and pauses for each.
  pub for_mask-IsFile :
      (left i mask_c : ℕ)
      → IsFile
          (for_mask left i mask_c rs lines)
          (devices left i mask_c rs * w)
          (devices left i mask_c rs * p)
  for_mask-IsFile zero i mask_c = nothing-IsFile (0 * w) (0 * p) (omega arith) (omega arith)
  for_mask-IsFile (suc left) i mask_c = elim (Bool-cases (bit_and mask_c (2 ^ i) == 0)) [
    | inl clear ↦ rw clear (
        append-IsFile [] (for_mask left (i + 1) mask_c rs lines) 0 (devices left (i + 1) mask_c rs)
          w p (nothing-IsFile (0 * w) (0 * p) (omega arith) (omega arith))
          (for_mask-IsFile left (i + 1) mask_c))
    | inr set ↦ rw set (
        append-IsFile (for_row (row_at rs (i - 1)) i lines) (for_mask left (i + 1) mask_c rs lines)
          (one (row_at rs (i - 1))) (devices left (i + 1) mask_c rs) w p
          (for_row-IsFile i (row_at rs (i - 1)) refl) (for_mask-IsFile left (i + 1) mask_c))
  ]
