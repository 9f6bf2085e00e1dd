-- ===== src/Packet/Request/Written.antt =====
-- What it is for a builder of src/libedio24.c to write a packet, and the steps that builders share.
use libedio.Base.{ℕ, zero, suc, ◌+◌, ◌≤◌, ◌<◌, ◌%◌, ◌≡◌, ◌∙◌, arith, Option, some, Buffer, pos}
use libedio.Base.{store_all_lem, List, write_all, ◌>>=◌}
use libedio.Packet.Frame.{header, Created, retag, finish}
use libedio.Packet.Format.{
  IsPacket, framed, retagged, finish_lem, framed-IsPacket, framed-data, framed-behind, retag_lem,
  retagged-IsPacket, retagged-data, retagged-behind,
}
use mathlib.Core.Path.{subst, sym}
use native.Mathlib.Decide.{ℕ_discrete}
use libedio.Base.{IsBytes, update, update-IsBytes, write_all-IsBytes, store_all, AllBelow}

-- The builder returns the size of the packet, increments the frame number modulo 256, and leaves
-- in the buffer a packet of the command with these data and the bytes behind it as they were.
pub record Builds (result : Option Created) (b : Buffer) (frame cmd count : ℕ) (data_bytes : ℕ → ℕ)
    : Type 0 where
  pub m : ℕ → ℕ
  pub returns :
      result
      ≡ some (record {
        ret = pos (7 + count);
        buffer = some (record b { byte = m });
        frame_id = some ((frame + 1) % 256);
      })
  pub bytes : IsBytes m
  pub packet : IsPacket m cmd frame 0 count
  pub content : (i : ℕ) → i < count → m (6 + i) ≡ data_bytes i
  pub behind : (i : ℕ) → 6 + count < i → m i ≡ b.byte i

-- What `retag` makes of a builder's result.
pub retag-Builds :
    (result : Option Created) (b : Buffer) (frame old cmd count : ℕ) (data_bytes : ℕ → ℕ)
    → cmd < 256
    → 7 + count ≤ b.cap
    → Builds result b frame old count data_bytes
    → Builds (result >>= retag cmd) b frame cmd count data_bytes
retag-Builds result b frame old cmd count data_bytes h fits built = record {
  m = retagged built.m cmd count;
  returns =
      rw
        (built.returns, retag_lem (record b { byte = built.m }) cmd count ((frame + 1) % 256) fits);
  bytes =
      update-IsBytes (update built.m 1 (cmd % 256)) (6 + count) _
        (update-IsBytes built.m 1 (cmd % 256) built.bytes (omega arith)) (omega arith);
  packet = retagged-IsPacket built.m old cmd frame 0 count h built.packet;
  content = λ i k. retagged-data built.m cmd count i k ∙ built.content i k;
  behind = λ i k. retagged-behind built.m cmd count i k ∙ built.behind i k;
}

-- What `finish` makes of a buffer whose command and data are in place.
pub finish-Builds :
    (b : Buffer) (m : ℕ → ℕ) (frame cmd count : ℕ) (data_bytes : ℕ → ℕ)
    → frame < 256
    → 7 + count ≤ b.cap
    → IsBytes m
    → m 1 ≡ cmd
    → ((i : ℕ) → i < count → m (6 + i) ≡ data_bytes i)
    → ((i : ℕ) → 6 + count < i → m i ≡ b.byte i)
    → Builds (finish (record b { byte = m }) frame count) b frame cmd count data_bytes
finish-Builds b m frame cmd count data_bytes h fits bytes e content behind = record {
  m = framed m frame count;
  returns = finish_lem (record b { byte = m }) frame count fits;
  bytes =
      update-IsBytes (write_all m (header frame count)) (6 + count) _
        (write_all-IsBytes m (header frame count) bytes) (omega arith);
  packet = rw e at (framed-IsPacket m frame count h);
  content = λ i k. framed-data m frame count i k ∙ content i k;
  behind = λ i k. framed-behind m frame count i k ∙ behind i k;
}

-- What holds at each number below `n`, one by one.
abbrev pub Each : (ℕ → Type 0) → ℕ → Type 0
Each P zero = Unit {0}
Each P (suc n) = P n × Each P n

Each_lem : (P : ℕ → Type 0) (n : ℕ) → Each P n → (i : ℕ) → i < n → P i
Each_lem P zero e i h = absurd (omega arith)
Each_lem P (suc n) e i h = elim (ℕ_discrete i n) [
  | yes same ↦ subst P (sym same) e.0
  | no other ↦ Each_lem P n e.1 i (omega arith)
]

-- A builder that makes fixed assignments and then calls `finish`.
pub stored-Builds :
    (b : Buffer) (ws : List (ℕ × ℕ)) (frame cmd count : ℕ) (data_bytes : ℕ → ℕ)
    → frame < 256
    → 7 + count ≤ b.cap
    → IsBytes b.byte
    → AllBelow b.cap ws
    → write_all b.byte ws 1 ≡ cmd
    → Each (λ i. write_all b.byte ws (6 + i) ≡ data_bytes i) count
    → ((i : ℕ) → 6 + count < i → write_all b.byte ws i ≡ b.byte i)
    → Builds (store_all b ws >>= λ b'. finish b' frame count) b frame cmd count data_bytes
stored-Builds b ws frame cmd count data_bytes h fits bytes below e content behind =
    rw (store_all_lem b ws below) (
      finish-Builds b (write_all b.byte ws) frame cmd count data_bytes h fits
        (write_all-IsBytes b.byte ws bytes) e
        (Each_lem (λ i. write_all b.byte ws (6 + i) ≡ data_bytes i) count content) behind)
