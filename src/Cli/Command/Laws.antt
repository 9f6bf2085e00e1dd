-- ===== src/Cli/Command/Laws.antt =====
-- What process_command sends.
use libedio.Base.{
  ℕ, zero, suc, ◌+◌, ◌%◌, ◌^◌, ◌≤◌, ◌<◌, ◌≡◌, ◌∙◌, ◌⊎◌, inl, inr, refl, ap, arith, Option, none,
  some, List,
}
use libedio.Base.{
  ltb, le→ltb, ltb→lt, ltb→le, Bool-cases, Buffer, memmove_lem, copied, copied-IsBytes, pos,
  IsBytes,
}
use mathlib.Core.Path.{fun_ext}
use libedio.Packet.Format.{IsPacket, agree-IsPacket}
use libedio.Packet.Request.{Area, Request, memw, build, opcode, data_count, payload, Fits}
use libedio.Packet.Request.Written.{Builds}
use libedio.Packet.Request.Builds.{build-Builds}
use libedio.Packet.Verify.{pkt_verify}
use libedio.Packet.Verify.Laws.{IsPacket-IsWhole, pkt_verify-whole}
use libedio.Packet.Request.Overruns.{build_memw-none}
use libedio.Cli.Command.Orders.{Suits, order-Suits}
use libedio.Cli.State.{Console}
use libedio.Cli.Command.{
  Order, creates, sleeps, parse_failed, unknown, sizeof_buffers, Done, send_buffer, send_created,
  carry_out, order, process_command,
}

-- One packet is sent, that of the request: the verification accepts it, it has the request's command
-- byte, data and the client's frame number. The client counts the request and the frame.
pub record Sends (c : Console) (r : Request) (result : Option Done) : Type 0 where
  pub m : ℕ → ℕ
  pub returns :
      result
      ≡ some (record {
        console = record c {
          frame = (c.frame + 1) % 256;
          num_requests = (c.num_requests + 1) % 2 ^ 64;
        };
        sent = some (record { cap = 7 + data_count r; byte = m });
        pause = 0;
      })
  pub bytes : IsBytes m
  pub packet : IsPacket m (opcode r) c.frame 0 (data_count r)
  pub content : (i : ℕ) → i < data_count r → m (6 + i) ≡ payload r i
  pub accepted :
      pkt_verify (some (record { cap = 7 + data_count r; byte = m })) (7 + data_count r)
      ≡ some (pos 0)

-- a local buffer of the function
abbrev pub local : (ℕ → ℕ) → Buffer
local m = record { cap = sizeof_buffers; byte = m }

send_created_lem :
    (c : Console) (m : ℕ → ℕ) (n frame : ℕ)
    → n ≤ sizeof_buffers
    → send_created c (record { ret = pos n; buffer = some (local m); frame_id = some frame })
      ≡ some (record {
        console = record c { frame = frame; num_requests = (c.num_requests + 1) % 2 ^ 64 };
        sent = some (record { cap = n; byte = copied (λ _. 0) 0 m n });
        pause = 0;
      })
unfolding send_created
send_created_lem c m n frame h = rw (
  le→ltb sizeof_buffers n h,
  memmove_lem (record { cap = n; byte = λ _. 0 }) 0 (local m) n (omega arith) h,
)

module _ (c : Console) (m : ℕ → ℕ) (h : c.frame < 256) (bytes : IsBytes m) (r : Request)
    (fits : Fits r sizeof_buffers (local m)) (small : 7 + data_count r ≤ sizeof_buffers) where
  abbrev built :
      Builds
        (build r (some (local m)) sizeof_buffers (some c.frame))
        (local m)
        c.frame
        (opcode r)
        (data_count r)
        (payload r)
  built = build-Builds r (local m) sizeof_buffers c.frame bytes h fits

  -- what is sent
  abbrev sent : Buffer
  sent = record { cap = 7 + data_count r; byte = copied (λ _. 0) 0 built.m (7 + data_count r) }

  sent-agree : (i : ℕ) → i < 7 + data_count r → sent.byte i ≡ built.m i
  sent-agree i k = ground arith

  sent-IsPacket : IsPacket sent.byte (opcode r) c.frame 0 (data_count r)
  sent-IsPacket =
      agree-IsPacket built.m sent.byte (opcode r) c.frame 0 (data_count r) sent-agree built.packet

  sent-IsBytes : IsBytes sent.byte
  sent-IsBytes = copied-IsBytes (λ _. 0) 0 built.m _ (λ _. omega arith) built.bytes

  pub creates-Sends : Sends c r (carry_out c m (creates r))
  unfolding carry_out
  creates-Sends = record {
    m = sent.byte;
    returns =
        rw built.returns
          (send_created_lem c built.m (7 + data_count r) ((c.frame + 1) % 256) small);
    bytes = sent-IsBytes;
    packet = sent-IsPacket;
    content = λ i k. sent-agree (6 + i) (omega arith) ∙ built.content i k;
    accepted =
        pkt_verify-whole sent (7 + data_count r) sent-IsBytes (omega arith)
          (IsPacket-IsWhole (data_count r) _ (omega arith) (omega arith) sent-IsPacket);
  }

send_nothing : (m : ℕ → ℕ) → send_buffer (local m) 0 ≡ some (record { cap = 0; byte = λ _. 0 })
unfolding send_buffer
send_nothing m =
    memmove_lem (record { cap = 0; byte = λ _. 0 }) 0 (local m) 0 (omega arith) (omega arith)
    ∙ ap (λ (f : ℕ → ℕ). some (record { cap = 0; byte = f })) (fun_ext λ j. ground arith)

-- A packet of more than 100 bytes is written past the end of the local buffer.
memw-overrun :
    (area : Area) (address n : ℕ) (m : ℕ → ℕ) (src : Buffer) (c : Console)
    → 91 < n
    → n ≤ src.cap
    → carry_out c m (creates (memw area address n src)) ≡ none
unfolding carry_out build
memw-overrun area address zero m src c long there = absurd (omega arith)
memw-overrun area address (suc n) m src c long there =
    rw
      (build_memw-none area (local m) src sizeof_buffers c.frame address n (omega arith)
        (omega arith) (omega arith) there)
      refl

-- What a line leads to. Nothing is sent for a line that is no command, or whose bytes cannot be
-- parsed, and the client is as before. "Sleep" sends a buffer of no bytes, which counts as a request.
-- A command sends its packet, unless the packet has more than 100 bytes: then it overruns the buffer.
abbrev pub Handled : Console → Order → Option Done → Type 0
Handled c parse_failed d = d ≡ some (record { console = c; sent = none; pause = 0 })
Handled c unknown d = d ≡ some (record { console = c; sent = none; pause = 0 })
Handled c (sleeps count) d =
    d
    ≡ some (record {
      console = record c { num_requests = (c.num_requests + 1) % 2 ^ 64 };
      sent = some (record { cap = 0; byte = λ _. 0 });
      pause = count;
    })
Handled c (creates r) d =
    ((7 + data_count r ≤ sizeof_buffers) × Sends c r d)
    ⊎ ((sizeof_buffers < 7 + data_count r) × (d ≡ none))

module _ (c : Console) (m : ℕ → ℕ) (h : c.frame < 256) (bytes : IsBytes m) where
  sends :
      (r : Request)
      → Fits r sizeof_buffers (local m)
      → 7 + data_count r ≤ sizeof_buffers
      → Handled c (creates r) (carry_out c m (creates r))
  sends r fits small = inl (small, creates-Sends c m h bytes r fits small)

  carry_out-Handled : (o : Order) → Suits o → Handled c o (carry_out c m o)
  unfolding carry_out
  carry_out-Handled parse_failed s = refl
  carry_out-Handled unknown s = refl
  carry_out-Handled (sleeps count) s = rw (send_nothing m) refl
  carry_out-Handled (creates (memw area address n src)) (small, room, source) =
      elim (Bool-cases (ltb 91 n)) [
        | inl long ↦ inr (
          omega (arith, ltb→lt _ _ long),
          memw-overrun area address n m src c (ltb→lt _ _ long) (omega arith),
        )
        | inr short ↦
            sends (memw area address n src)
              (omega arith, omega (arith, ltb→le _ _ short), omega arith, source)
              (omega (arith, ltb→le _ _ short))
      ]
  carry_out-Handled (creates r) s = sends r (omega arith) (omega arith)

-- Given a frame number below 256, local buffers of bytes, and a line whose order is read: a line that
-- is no command, or has bytes that cannot be parsed, sends nothing and leaves the client as it was; a
-- pause sends an empty buffer and counts as a request; a command sends exactly its packet, which the
-- verification accepts and which has the request's command byte and data and the client's frame
-- number, and the request and the frame are counted; a packet of more than 100 bytes overruns the local
-- buffer.
pub process_command-Handled :
    (c : Console) (buffer1 buffer2 : ℕ → ℕ) (mem : List ℕ) (o : Order)
    → c.frame < 256
    → IsBytes buffer1
    → IsBytes buffer2
    → order mem buffer2 ≡ some o
    → Handled c o (process_command c buffer1 buffer2 mem)
unfolding process_command
process_command-Handled c buffer1 buffer2 mem o h bytes bytes2 e =
    rw e (carry_out-Handled c buffer1 h bytes o (order-Suits mem buffer2 o bytes2 e))

-- The packet of an order fits the local buffer.
abbrev pub IsShort : Order → Type 0
IsShort (creates r) = 7 + data_count r ≤ sizeof_buffers
IsShort o = Unit {0}

-- Such an order is carried out to its end, and the frame number stays a byte.
pub Handled-done :
    (c : Console) (o : Order) (result : Option Done)
    → c.frame < 256
    → IsShort o
    → Handled c o result
    → (d : Done) × (result ≡ some d) × (d.console.frame < 256)
Handled-done c parse_failed result h short e =
    (record { console = c; sent = none; pause = 0 }, e, h)
Handled-done c unknown result h short e = (record { console = c; sent = none; pause = 0 }, e, h)
Handled-done c (sleeps count) result h short e = (
  record {
    console = record c { num_requests = (c.num_requests + 1) % 2 ^ 64 };
    sent = some (record { cap = 0; byte = λ _. 0 });
    pause = count;
  },
  e,
  h,
)
Handled-done c (creates r) result h short (inr (large, e)) = absurd (omega arith)
Handled-done c (creates r) result h short (inl (small, sends)) = (
  record {
    console = record c {
      frame = (c.frame + 1) % 256;
      num_requests = (c.num_requests + 1) % 2 ^ 64;
    };
    sent = some (record { cap = 7 + data_count r; byte = sends.m });
    pause = 0;
  },
  sends.returns,
  omega arith,
)
