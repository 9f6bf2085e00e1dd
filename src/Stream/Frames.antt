-- ===== src/Stream/Frames.antt =====
-- The packets of src/libedio24.c one behind the other in a stream of bytes.
use libedio.Base.{
  ℕ, ◌+◌, ◌%◌, ◌^◌, ◌≤◌, ◌<◌, ◌≡◌, ◌∙◌, ◌⊎◌, inl, inr, refl, sym, ap, arith, Bool, true, false,
  Bool-cases, ltb, ltb→lt, ltb→le, List, [], ◌∷◌, ◌++◌,
}
use mathlib.Core.List.{append_assoc}
use mathlib.Core.Path.{subst}
use libedio.Text.{length}
use libedio.Text.Laws.{length-append}
use libedio.Util.Strip.{byte_of}
use libedio.Util.Strip.Laws.{byte_of-within}
use libedio.Packet.Checksum.{byte_sum, byte_sum-agree}
use libedio.Packet.Verify.Laws.{count_of, IsWhole, count_of-IsPacket}
use libedio.Packet.Format.{IsPacket}
use libedio.Stream.{bytes_of, length-bytes_of, byte_of-bytes_of, append-cancel, join}

-- The sum of a packet, and the command byte one that is known.
abbrev pub IsSound : (ℕ → Bool) → (ℕ → ℕ) → Type 0
IsSound known m =
    (m (6 + count_of m) + byte_sum m 0 (6 + count_of m) % 256 ≡ 255) × (known (m 1) ≡ true)

-- A list of bytes that is exactly one packet, of a known command.
pub record IsFrame (known : ℕ → Bool) (p : List ℕ) : Type 0 where
  pub exact : length p ≡ 7 + count_of (byte_of p)
  pub sound : IsSound known (byte_of p)

abbrev pub AllFrames : (ℕ → Bool) → List (List ℕ) → Type 0
AllFrames known [] = Unit {0}
AllFrames known (p ∷ ps) = IsFrame known p × AllFrames known ps

-- The count and the soundness of a packet depend on its bytes only.
pub count_of-agree :
    (m m' : ℕ → ℕ) (n : ℕ) → 6 ≤ n → ((i : ℕ) → i < n → m' i ≡ m i) → count_of m' ≡ count_of m
count_of-agree m m' n h same_bytes =
    omega (arith, same_bytes 4 (omega arith), same_bytes 5 (omega arith))

pub IsSound-agree :
    (known : ℕ → Bool) (m m' : ℕ → ℕ) (n : ℕ)
    → 7 + count_of m ≤ n
    → ((i : ℕ) → i < n → m' i ≡ m i)
    → IsSound known m
    → IsSound known m'
IsSound-agree known m m' n h same_bytes (sum, is_known) =
    let e : count_of m' ≡ count_of m = count_of-agree m m' n (omega arith) same_bytes in
    (
      rw e (
          omega (
            arith,
            sum,
            same_bytes (6 + count_of m) (omega arith),
            byte_sum-agree m m' 0 (6 + count_of m) (λ k l. same_bytes k (omega arith)),
          )),
      ap known (same_bytes 1 (omega arith)) ∙ is_known,
    )

pub AllFrames-append :
    (known : ℕ → Bool) (ps qs : List (List ℕ))
    → AllFrames known ps
    → AllFrames known qs
    → AllFrames known (ps ++ qs)
AllFrames-append known [] qs fs gs = gs
AllFrames-append known (p ∷ ps) qs fs gs = (fs.0, AllFrames-append known ps qs fs.1 gs)

-- No packet is longer than a buffer.
abbrev pub AllFit : ℕ → List (List ℕ) → Type 0
AllFit n [] = Unit {0}
AllFit n (p ∷ ps) = (length p ≤ n) × AllFit n ps

pub AllFit-suffix : (n : ℕ) (ps qs : List (List ℕ)) → AllFit n (ps ++ qs) → AllFit n qs
AllFit-suffix n [] qs fits = fits
AllFit-suffix n (p ∷ ps) qs fits = AllFit-suffix n ps qs fits.1

module _ (known : ℕ → Bool) where
  -- The packet at the head of memory.
  pub head-IsFrame : (m : ℕ → ℕ) → IsSound known m → IsFrame known (bytes_of m (7 + count_of m))
  head-IsFrame m s =
      let n : ℕ = 7 + count_of m in
      let same_bytes : (i : ℕ) → i < n → byte_of (bytes_of m n) i ≡ m i = byte_of-bytes_of m n in
      record {
        exact =
            length-bytes_of m n
            ∙ ap (λ (c : ℕ). 7 + c)
                (sym (count_of-agree m (byte_of (bytes_of m n)) n (omega arith) same_bytes));
        sound = IsSound-agree known m (byte_of (bytes_of m n)) n (omega arith) same_bytes s;
      }

  -- Two packets at the head of one stream are the same, and so is what follows.
  pub IsFrame-unique :
      (p q x y : List ℕ) → IsFrame known p → IsFrame known q → p ++ x ≡ q ++ y → (p ≡ q) × (x ≡ y)
  IsFrame-unique p q x y f g e =
      let same_bytes : (i : ℕ) → i < 7 → byte_of p i ≡ byte_of q i = λ i h.
        sym (byte_of-within p x i (omega (arith, f.exact)))
        ∙ (ap (λ (s : List ℕ). byte_of s i) e ∙ byte_of-within q y i (omega (arith, g.exact))) in
      let same_count : count_of (byte_of p) ≡ count_of (byte_of q) =
        count_of-agree (byte_of q) (byte_of p) 7 (omega arith) same_bytes in
      append-cancel p q x y (omega (arith, f.exact, g.exact)) e

  -- Packets at the head of a stream that consists of packets are the first of these.
  pub AllFrames-prefix :
      (ps qs : List (List ℕ)) (x : List ℕ)
      → AllFrames known ps
      → AllFrames known qs
      → join ps ++ x ≡ join qs
      → (rest : List (List ℕ)) × (qs ≡ ps ++ rest) × (x ≡ join rest) × AllFrames known rest
  AllFrames-prefix [] qs x fs gs e = (qs, refl, e, gs)
  AllFrames-prefix (p ∷ ps) [] x fs gs e = absurd (
      omega
        (arith, fs.0.exact, ap length e, length-append (p ++ join ps) x, length-append p (join ps)))
  AllFrames-prefix (p ∷ ps) (q ∷ qs) x fs gs e =
      let (same_head, same_rest) =
        IsFrame-unique p q (join ps ++ x) (join qs) fs.0 gs.0
          (sym (append_assoc p (join ps) x) ∙ e) in
      let (rest, split, left, hs) = AllFrames-prefix ps qs x fs.1 gs.1 same_rest in
      (rest, cc (same_head, split), left, hs)

  -- Memory that begins with all of a packet holds a whole one.
  pub there-IsWhole :
      (m : ℕ → ℕ) (n : ℕ) (q x y : List ℕ)
      → IsFrame known q
      → length q ≤ n
      → bytes_of m n ++ x ≡ q ++ y
      → IsWhole m n × (known (m 1) ≡ true)
  there-IsWhole m n q x y f h e =
      let same_bytes : (i : ℕ) → i < length q → m i ≡ byte_of q i = λ i k.
        sym (byte_of-bytes_of m n i (omega arith))
        ∙ (sym (byte_of-within (bytes_of m n) x i (omega (arith, length-bytes_of m n)))
            ∙ (ap (λ (s : List ℕ). byte_of s i) e ∙ byte_of-within q y i k)) in
      let s : IsSound known m =
        IsSound-agree known (byte_of q) m (length q) (omega (arith, f.exact)) same_bytes f.sound in
      let same_count : count_of m ≡ count_of (byte_of q) =
        count_of-agree (byte_of q) m (length q) (omega (arith, f.exact)) same_bytes in
      ((omega (arith, f.exact, same_count), s.0), s.1)

  -- What holds no whole packet of a known command, in a stream of packets, is less than one packet.
  pub stuck-lt :
      (m : ℕ → ℕ) (n : ℕ) (q x y : List ℕ)
      → IsFrame known q
      → bytes_of m n ++ x ≡ q ++ y
      → (¬ IsWhole m n) ⊎ (known (m 1) ≡ false)
      → n < length q
  stuck-lt m n q x y f e stuck = elim (Bool-cases (ltb n (length q))) [
    | inl less ↦ ltb→lt _ _ less
    | inr there ↦
        let (whole, is_known) = there-IsWhole m n q x y f (ltb→le _ _ there) e in
        elim stuck [ inl broken ↦ absurd (broken whole) | inr unknown ↦ cc ]
  ]

  -- The header at the head of memory, where all of it is there, has the length of the first packet.
  pub header-length :
      (m : ℕ → ℕ) (n : ℕ) (q x y : List ℕ)
      → IsFrame known q
      → bytes_of m n ++ x ≡ q ++ y
      → 6 ≤ n
      → 7 + count_of m ≡ length q
  header-length m n q x y f e h =
      let same_bytes : (i : ℕ) → i < 6 → m i ≡ byte_of q i = λ i k.
        sym (byte_of-bytes_of m n i (omega arith))
        ∙ (sym (byte_of-within (bytes_of m n) x i (omega (arith, length-bytes_of m n)))
            ∙ (ap (λ (s : List ℕ). byte_of s i) e
                ∙ byte_of-within q y i (omega (arith, f.exact)))) in
      omega (arith, f.exact, count_of-agree (byte_of q) m 6 (omega arith) same_bytes)

  -- The bytes of a packet of a known command.
  pub packet-IsFrame :
      (m : ℕ → ℕ) (cmd frame status count : ℕ)
      → count < 2 ^ 16
      → IsPacket m cmd frame status count
      → known cmd ≡ true
      → IsFrame known (bytes_of m (7 + count))
  packet-IsFrame m cmd frame status count small p is_known =
      let e : count_of m ≡ count = count_of-IsPacket count small p in
      let s : IsSound known m = (rw e p.sum, ap known p.command ∙ is_known) in
      subst (λ (k : ℕ). IsFrame known (bytes_of m (7 + k))) e (head-IsFrame m s)
