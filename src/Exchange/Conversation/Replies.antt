-- ===== src/Exchange/Conversation/Replies.antt =====
-- What the simulator's messages are in the stream that the client of utils/edio24cli.c reads.
use libedio.Base.{
  ℕ, suc, ◌+◌, ◌<◌, ◌≡◌, ◌⊎◌, refl, sym, ap, arith, inl, inr, true, List, [], ◌∷◌, ◌++◌,
}
use mathlib.Core.Path.{subst}
use libedio.Protocol.{cmd_dout_w, cmd_dconf_w}
use libedio.Text.{length}
use libedio.Util.Strip.{byte_of}
use libedio.Server.Tcp as OfDevice
use libedio.Client.Tcp as OfClient
use libedio.Stream.{
  bytes_of, length-bytes_of, join, AllBytes, AllBytes-append, AllBytes-split, byte_of-AllBytes,
}
use libedio.Stream.Frames.{IsFrame, AllFrames, AllFit, packet-IsFrame}
use libedio.Simulator.State.{Message}
use libedio.Server.Tcp.Laws.{is_bare}
use libedio.Simulator.Process.Laws.{IsAnswer}
use libedio.Simulator.Stream.{Answers}
use libedio.Cli.State.{sizeof_buffer}
use libedio.Cli.Stream.{is_reply}
use libedio.Exchange.Conversation.{outbox, IsWrite, AllWrites}

-- The messages as packets of the client's stream.
pub record Replies (number : ℕ) (messages : List Message) : Type 0 where
  pub packets : List (List ℕ)
  pub frames : AllFrames is_reply packets
  pub fit : AllFit sizeof_buffer packets
  pub counted : length packets ≡ number
  pub stream : outbox messages ≡ join packets

write_is_bare :
    (command : ℕ)
    → ((command ≡ cmd_dout_w) ⊎ (command ≡ cmd_dconf_w))
    → is_bare (OfDevice.case_of command) ≡ true
unfolding OfDevice.case_of
write_is_bare command (inl e) = rw e refl
write_is_bare command (inr e) = rw e refl

write_is_reply :
    (command : ℕ)
    → ((command ≡ cmd_dout_w) ⊎ (command ≡ cmd_dconf_w))
    → is_reply (command + 128) ≡ true
unfolding OfClient.case_of
write_is_reply command (inl e) = rw e refl
write_is_reply command (inr e) = rw e refl

-- The answer to a write is a reply of seven bytes.
answer-IsFrame :
    (p : List ℕ) (reply : Message)
    → IsWrite p
    → IsAnswer (byte_of p) (length p) reply
    → IsFrame is_reply (bytes_of reply.byte reply.size) × (reply.size ≡ 7)
answer-IsFrame p reply (size, command) a =
    let (seven, (status, small, packet)) = a.bare (write_is_bare (byte_of p 1) command) in
    (
      subst (λ (n : ℕ). IsFrame is_reply (bytes_of reply.byte n)) (sym seven)
          (packet-IsFrame is_reply reply.byte (byte_of p 1 + 128) (byte_of p 2) status 0
            (omega arith) packet (write_is_reply (byte_of p 1) command)),
      seven,
    )

pub Answers-Replies :
    (ps : List (List ℕ)) (messages : List Message)
    → AllWrites ps
    → Answers ps messages
    → Replies (length ps) messages
Answers-Replies [] [] kind a = record {
  packets = [];
  frames = tt;
  fit = tt;
  counted = refl;
  stream = refl;
}
Answers-Replies [] (reply ∷ messages) kind a = absurd a
Answers-Replies (p ∷ ps) [] kind a = absurd a
Answers-Replies (p ∷ ps) (reply ∷ messages) kind a =
    let rest = Answers-Replies ps messages kind.1 a.1 in
    let (frame, seven) = answer-IsFrame p reply kind.0 a.0 in
    record {
      packets = bytes_of reply.byte reply.size ∷ rest.packets;
      frames = (frame, rest.frames);
      fit = (omega (arith, seven, length-bytes_of reply.byte reply.size), rest.fit);
      counted = ap suc rest.counted;
      stream = ap (◌++◌ (bytes_of reply.byte reply.size)) rest.stream;
    }

-- The answer to a write is of bytes, and so are all.
answer-AllBytes :
    (p : List ℕ) (reply : Message)
    → IsWrite p
    → AllBytes p
    → IsAnswer (byte_of p) (length p) reply
    → AllBytes (bytes_of reply.byte reply.size)
answer-AllBytes p reply (size, command) bytes a =
    let (seven, (status, small, packet)) = a.bare (write_is_bare (byte_of p 1) command) in
    let low : byte_of p 1 < 128 = elim command [ inl e ↦ omega arith | inr e ↦ omega arith ] in
    rw seven (
      omega (
        arith,
        packet.start,
        packet.command,
        packet.frame_byte,
        packet.status_byte,
        packet.count_low,
        packet.count_high,
        packet.sum,
        byte_of-AllBytes p 2 bytes,
      ))

pub Answers-AllBytes :
    (ps : List (List ℕ)) (messages : List Message)
    → AllWrites ps
    → AllBytes (join ps)
    → Answers ps messages
    → AllBytes (outbox messages)
Answers-AllBytes [] [] kind bytes a = tt
Answers-AllBytes [] (reply ∷ messages) kind bytes a = absurd a
Answers-AllBytes (p ∷ ps) [] kind bytes a = absurd a
Answers-AllBytes (p ∷ ps) (reply ∷ messages) kind bytes a =
    let (first, rest) = AllBytes-split p (join ps) bytes in
    AllBytes-append (bytes_of reply.byte reply.size) (outbox messages)
      (answer-AllBytes p reply kind.0 first a.0) (Answers-AllBytes ps messages kind.1 rest a.1)
