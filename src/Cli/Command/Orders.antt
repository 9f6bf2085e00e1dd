-- ===== src/Cli/Command/Orders.antt =====
-- What the requests of a command line have in common: a memory write has its data in the buffer that
-- the hexadecimal parser filled.
use libedio.Base.{
  ℕ, ◌%◌, ◌^◌, ◌≤◌, ◌<◌, ◌≡◌, ◌∙◌, inl, inr, refl, ap, sym, arith, Option, none, some, List, [],
  ◌∷◌,
}
use libedio.Base.{Bool-cases, ◌>>=◌, Buffer, ℤ, pos, negsuc, IsBytes}
use mathlib.Core.Path.{subst}
use libedio.Packet.Request.{
  Area, Request, memw, conf, settings, boot, din, doutr, dconfr, counterr, counterw, status,
  netconf, firmware, doutw, dconfw, blinkled,
}
use libedio.Text.{length, drop, c_string, starts_with}
use libedio.Text.Strtol.{strtol}
use libedio.Util.Hex.{parse_hex_buf}
use libedio.Util.Hex.Bounds
use libedio.Util.Hex.Bounds.{Parsed, parse_hex_buf-Outcome}
use libedio.Cli.Command.{
  Order, creates, sleeps, unknown, sizeof_buffers, two_numbers, written, write_of, first_match,
  branches, blink, pause_of, pins, read_of, order,
}

-- The data of a memory write are there.
abbrev pub Stocked : Request → Type 0
Stocked (memw area address count src) =
    (count ≤ sizeof_buffers) × (src.cap ≡ sizeof_buffers) × IsBytes src.byte
Stocked r = Unit {0}

abbrev pub Suits : Order → Type 0
Suits (creates r) = Stocked r
Suits o = Unit {0}

-- Every result that is there has the property.
record Every {A : Type 0} (P : A → Type 0) (r : Option A) : Type 0 where
  each : (o : A) → r ≡ some o → P o

some-Every : {A : Type 0} {P : A → Type 0} (a : A) → P a → Every P (some a)
some-Every {P} a p = record { each = λ o e. subst P (cc) p }

bind-Every :
    {A B : Type 0} {P : B → Type 0} (m : Option A) (f : A → Option B)
    → ((a : A) → m ≡ some a → Every P (f a))
    → Every P (m >>= f)
bind-Every none f h = record { each = λ o e. absurd (cc) }
bind-Every (some a) f h = h a refl

two_numbers-Suits :
    (off : ℕ) (mem : List ℕ) (request : ℕ → ℕ → Request)
    → ((x y : ℕ) → Stocked (request x y))
    → Every Suits (two_numbers off mem request)
unfolding two_numbers
two_numbers-Suits off mem request all =
    bind-Every (strtol 16 (drop off mem)) _ λ (a : ℕ × List ℕ) _.
      bind-Every (strtol 16 (drop 1 a.1)) _
        λ (b : ℕ × List ℕ) _. some-Every (creates (request a.0 b.0)) (all a.0 b.0)

-- Every row of a chain leads to such an order.
infixr 5 ◌&◌
data AllRows : List (List ℕ × Option Order) → Type 0 where
  end : AllRows []
  ◌&◌ :
      {name : List ℕ} {o : Option Order} {rows : List (List ℕ × Option Order)}
      → Every Suits o
      → AllRows rows
      → AllRows ((name, o) ∷ rows)

write_of-Suits :
    (area : Area) (address : ℕ) (cstr : List ℕ) (b : Buffer) (r : Option (ℤ × Buffer))
    (k : ℤ × Buffer)
    → b.cap ≡ sizeof_buffers
    → Bounds.Outcome cstr sizeof_buffers b r
    → r ≡ some k
    → Suits (write_of area address k.0 k.1)
write_of-Suits area address cstr b r (negsuc n, buf) room o e = tt
write_of-Suits area address cstr b r (pos n, buf) room (Bounds.refused e') e = absurd (cc)
write_of-Suits area address cstr b r (pos n, buf) room (Bounds.not_ascii _ e') e = absurd (cc)
write_of-Suits area address cstr b r (pos n, buf) room (Bounds.parsed p) e =
    let same_n : p.n ≡ n = cc in
    let same_b : p.buffer ≡ buf = cc in
    (
      omega (arith, same_n),
      ap (λ (x : Buffer). x.cap) (sym same_b) ∙ p.kept.cap ∙ room,
      λ i. subst (λ (x : Buffer). x.byte i < 256) same_b (p.kept.bytes i),
    )

written-Suits :
    (area : Area) (off : ℕ) (mem : List ℕ) (buffer2 : ℕ → ℕ)
    → IsBytes buffer2
    → Every Suits (written area off mem buffer2)
unfolding written
written-Suits area off mem buffer2 bytes =
    bind-Every (strtol 16 (drop off mem)) _ λ (a : ℕ × List ℕ) _.
      bind-Every (c_string (drop 1 a.1)) _ λ (cstr : List ℕ) _.
        let b : Buffer = record { cap = sizeof_buffers; byte = buffer2 } in
        bind-Every (parse_hex_buf (some cstr) (length cstr) b sizeof_buffers) _
          λ (k : ℤ × Buffer) e. some-Every (write_of area a.0 k.0 k.1) (
            write_of-Suits area a.0 cstr b _ k refl
              (parse_hex_buf-Outcome cstr b sizeof_buffers bytes (omega arith)) e)

first_match-Every :
    (mem : List ℕ) (rows : List (List ℕ × Option Order))
    → AllRows rows
    → Every Suits (first_match mem rows)
unfolding first_match
first_match-Every mem [] end = some-Every unknown tt
first_match-Every mem ((name, o) ∷ rows) (this & rest) = elim (Bool-cases (starts_with name mem)) [
  | inl here ↦ rw here this
  | inr later ↦ rw later (first_match-Every mem rows rest)
]

plain-Suits : (r : Request) → Stocked r → Every Suits (some (creates r))
plain-Suits r h = some-Every (creates r) h

branches-AllRows :
    (mem : List ℕ) (buffer2 : ℕ → ℕ) → IsBytes buffer2 → AllRows (branches mem buffer2)
unfolding branches blink pause_of
branches-AllRows mem buffer2 bytes =
    two_numbers-Suits 6 mem (pins doutw) (λ x y. tt)
    & two_numbers-Suits 9 mem (pins dconfw) (λ x y. tt)
    & plain-Suits din tt
    & plain-Suits doutr tt
    & plain-Suits dconfr tt
    & plain-Suits counterr tt
    & plain-Suits counterw tt
    & bind-Every (strtol 16 (drop 9 mem)) _ (λ a _. plain-Suits (blinkled (a.0 % 2 ^ 8)) tt)
    & plain-Suits status tt
    & plain-Suits status tt
    & plain-Suits netconf tt
    & plain-Suits firmware tt
    & two_numbers-Suits 14 mem (read_of boot) (λ x y. tt)
    & two_numbers-Suits 14 mem (read_of settings) (λ x y. tt)
    & two_numbers-Suits 14 mem (read_of conf) (λ x y. tt)
    & written-Suits conf 14 mem buffer2 bytes
    & written-Suits settings 16 mem buffer2 bytes
    & written-Suits boot 18 mem buffer2 bytes
    & bind-Every (strtol 10 (drop 6 mem)) _ (λ a _. some-Every (sleeps (a.0 % 2 ^ 32)) tt)
    & end

-- The data of a memory write of a command line are in the parser's buffer, 100 bytes at most.
pub order-Suits :
    (mem : List ℕ) (buffer2 : ℕ → ℕ) (o : Order)
    → IsBytes buffer2
    → order mem buffer2 ≡ some o
    → Suits o
unfolding order
order-Suits mem buffer2 o bytes e =
    (first_match-Every mem (branches mem buffer2) (branches-AllRows mem buffer2 bytes)).each o e
