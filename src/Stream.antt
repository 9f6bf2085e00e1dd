-- ===== src/Stream.antt =====
-- What arrives over TCP as a list of bytes: the contents of a buffer, in src/libedio24.c and in the
-- programs of utils/, and the packets that stand one behind the other in it.
pub mod Frames
use libedio.Base.{
  ℕ, zero, suc, ◌+◌, ◌-◌, ◌≤◌, ◌<◌, ◌≡◌, ◌∙◌, refl, sym, ap, arith, List, [], ◌∷◌, ◌++◌, copied,
  Buffer, IsBytes,
}
use mathlib.Core.List.{append_assoc}
use libedio.Inbox.{shifted_bytes}
use libedio.Text.{length}
use libedio.Util.Strip.{byte_of}

-- the first `n` bytes of memory
abbrev pub bytes_of : (ℕ → ℕ) → ℕ → List ℕ
bytes_of m zero = []
bytes_of m (suc n) = m 0 ∷ bytes_of (λ i. m (suc i)) n

pub length-bytes_of : (m : ℕ → ℕ) (n : ℕ) → length (bytes_of m n) ≡ n
length-bytes_of m zero = refl
length-bytes_of m (suc n) = ap suc (length-bytes_of (λ i. m (suc i)) n)

pub byte_of-bytes_of : (m : ℕ → ℕ) (n i : ℕ) → i < n → byte_of (bytes_of m n) i ≡ m i
byte_of-bytes_of m zero i h = absurd (omega arith)
byte_of-bytes_of m (suc n) zero h = refl
byte_of-bytes_of m (suc n) (suc i) h = byte_of-bytes_of (λ j. m (suc j)) n i (omega arith)

pub bytes_of-agree :
    (m m' : ℕ → ℕ) (n : ℕ) → ((i : ℕ) → i < n → m i ≡ m' i) → bytes_of m n ≡ bytes_of m' n
bytes_of-agree m m' zero same_bytes = refl
bytes_of-agree m m' (suc n) same_bytes =
    let rest : bytes_of (λ i. m (suc i)) n ≡ bytes_of (λ i. m' (suc i)) n =
      bytes_of-agree (λ i. m (suc i)) (λ i. m' (suc i)) n
        (λ i h. same_bytes (suc i) (omega arith)) in
    let first : m 0 ≡ m' 0 = same_bytes 0 (omega arith) in cc

-- Memory in two parts.
pub bytes_of-split :
    (m : ℕ → ℕ) (k r n : ℕ) → n ≡ k + r → bytes_of m n ≡ bytes_of m k ++ bytes_of (λ i. m (k + i)) r
bytes_of-split m zero r n e =
    let e' : n ≡ r = omega arith in
    rw e' (bytes_of-agree m (λ i. m (0 + i)) r (λ i h. ap m (omega arith)))
bytes_of-split m (suc k) r zero e = absurd (omega arith)
bytes_of-split m (suc k) r (suc n) e = ap (◌∷◌ (m 0)) (
    bytes_of-split (λ i. m (suc i)) k r n (omega arith)
    ∙ ap (◌++◌ (bytes_of (λ i. m (suc i)) k))
        (bytes_of-agree (λ i. m (suc (k + i))) (λ i. m (suc k + i)) r (λ i h. ap m (omega arith))))

-- Bytes that were copied behind the first `held` ones.
pub bytes_of-copied :
    (m src : ℕ → ℕ) (held n : ℕ)
    → bytes_of (copied m held src n) (held + n) ≡ bytes_of m held ++ bytes_of src n
bytes_of-copied m src held n =
    let before : bytes_of (copied m held src n) held ≡ bytes_of m held =
      bytes_of-agree (copied m held src n) m held (λ i h. ground arith) in
    let behind : bytes_of (λ i. copied m held src n (held + i)) n ≡ bytes_of src n =
      bytes_of-agree (λ i. copied m held src n (held + i)) src n
        (λ i h. let e : held + i - held ≡ i = omega arith in ground (arith, ap src e)) in
    bytes_of-split (copied m held src n) held n (held + n) refl ∙ rw (before, behind) refl

-- Bytes at the head of memory, and the ones that are moved to the front when they are taken.
pub bytes_of-shifted :
    (m : ℕ → ℕ) (k n : ℕ)
    → k ≤ n
    → bytes_of m n ≡ bytes_of m k ++ bytes_of (shifted_bytes m k (n - k)) (n - k)
bytes_of-shifted m k n h =
    let left : bytes_of (shifted_bytes m k (n - k)) (n - k) ≡ bytes_of (λ i. m (k + i)) (n - k) =
      bytes_of-agree (shifted_bytes m k (n - k)) (λ i. m (k + i)) (n - k)
        (λ i l. let e : i - 0 ≡ i = omega arith in ground (arith, ap (λ (j : ℕ). m (k + j)) e)) in
    bytes_of-split m k (n - k) n (omega arith) ∙ rw left refl

-- all bytes of pieces that arrive, each as long as its buffer
abbrev pub arrived : List Buffer → List ℕ
arrived [] = []
arrived (b ∷ bs) = bytes_of b.byte b.cap ++ arrived bs

-- A piece has a byte or more.
abbrev pub ArePieces : List Buffer → Type 0
ArePieces [] = Unit {0}
ArePieces (b ∷ bs) = (0 < b.cap) × IsBytes b.byte × ArePieces bs

-- All are bytes.
abbrev pub AllBytes : List ℕ → Type 0
AllBytes [] = Unit {0}
AllBytes (x ∷ xs) = (x < 256) × AllBytes xs

pub bytes_of-AllBytes :
    (m : ℕ → ℕ) (n : ℕ) → ((i : ℕ) → i < n → m i < 256) → AllBytes (bytes_of m n)
bytes_of-AllBytes m zero bytes = tt
bytes_of-AllBytes m (suc n) bytes = (
  bytes 0 (omega arith),
  bytes_of-AllBytes (λ i. m (suc i)) n (λ i h. bytes (suc i) (omega arith)),
)

pub AllBytes-append : (xs ys : List ℕ) → AllBytes xs → AllBytes ys → AllBytes (xs ++ ys)
AllBytes-append [] ys a b = b
AllBytes-append (x ∷ xs) ys a b = (a.0, AllBytes-append xs ys a.1 b)

pub AllBytes-split : (xs ys : List ℕ) → AllBytes (xs ++ ys) → AllBytes xs × AllBytes ys
AllBytes-split [] ys a = (tt, a)
AllBytes-split (x ∷ xs) ys a = let (first, rest) = AllBytes-split xs ys a.1 in ((a.0, first), rest)

pub byte_of-AllBytes : (xs : List ℕ) (i : ℕ) → AllBytes xs → byte_of xs i < 256
byte_of-AllBytes [] i a = omega arith
byte_of-AllBytes (x ∷ xs) zero a = a.0
byte_of-AllBytes (x ∷ xs) (suc i) a = byte_of-AllBytes xs i a.1

-- Bytes that arrive one by one.
abbrev pub one_by_one : List ℕ → List Buffer
one_by_one [] = []
one_by_one (x ∷ xs) = record { cap = 1; byte = λ _. x } ∷ one_by_one xs

pub one_by_one-arrived : (xs : List ℕ) → arrived (one_by_one xs) ≡ xs
one_by_one-arrived [] = refl
one_by_one-arrived (x ∷ xs) = ap (◌∷◌ x) (one_by_one-arrived xs)

pub one_by_one-ArePieces : (xs : List ℕ) → AllBytes xs → ArePieces (one_by_one xs)
one_by_one-ArePieces [] a = tt
one_by_one-ArePieces (x ∷ xs) a = (omega arith, λ i. a.0, one_by_one-ArePieces xs a.1)

module _ {ℓ} {A : Type ℓ} where
  -- Two lists with heads of the same length that are equal as a whole are equal in both parts.
  pub append-cancel : (p q x y : List A) → length p ≡ length q → p ++ x ≡ q ++ y → (p ≡ q) × (x ≡ y)
  append-cancel [] [] x y h e = (refl, e)
  append-cancel [] (b ∷ q) x y h e = absurd (omega arith)
  append-cancel (a ∷ p) [] x y h e = absurd (omega arith)
  append-cancel (a ∷ p) (b ∷ q) x y h e =
      let (first, rest) = append-cancel p q x y (omega arith) (cc e) in (cc (e, first), rest)

  -- all of a list of lists
  abbrev pub join : List (List A) → List A
  join [] = []
  join (p ∷ ps) = p ++ join ps

  pub join-append : (ps qs : List (List A)) → join (ps ++ qs) ≡ join ps ++ join qs
  join-append [] qs = refl
  join-append (p ∷ ps) qs =
      ap (◌++◌ p) (join-append ps qs) ∙ sym (append_assoc p (join ps) (join qs))
