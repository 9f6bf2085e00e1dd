-- ===== src/Exchange/Conversation/Attenuators.antt =====
-- The command for attenuators of utils/gencctcmd.c, from its arguments to the devices, for the
-- file that do_setatten writes.
use libedio.Base.{
  ℕ, ◌+◌, ◌-◌, ◌*◌, ◌^◌, ◌<◌, ◌≤◌, ◌≡◌, ◌∙◌, ap, refl, arith, bit_and, bit_and-le, Option, some, ℤ,
}
use libedio.Base.{
  List, Bool, false, Buffer, ltb, ◌==◌, if◌then◌else◌, inl, inr, ◌⊎◌, Bool-cases, le→ltb,
}
use libedio.Text.{length}
use libedio.Stream.{arrived, ArePieces}
use libedio.Tools.Boards.{BoardList}
use libedio.Tools.Boards.Laws.{IsBoardList, rows}
use libedio.Tools.Command.{Line}
use libedio.Tools.Generate.{values_of, half, do_setatten}
use libedio.Tools.Generate.Laws.{AllRows, for_mask}
use libedio.Tools.Generate.Attenuators.{latch, both_bits, one_bits, attenuate, do_setatten_lem}
use libedio.Cli.State.{Console}
use libedio.Cli.Connect.{Sending}
use libedio.Cli.Receive as ClientReads
use libedio.Simulator.Receive as DeviceReads
use libedio.Simulator.State.{Turn, sizeof_buffer}
use libedio.Exchange.Commands.Follows.{AreBytes}
use libedio.Exchange.Conversation.{outgoing, outbox, log_of, messages_of, writes, pauses}
use libedio.Exchange.Conversation.Devices.{
  AllPlain, devices, devices-le, IsFile, append-IsFile, for_mask-IsFile,
}
use libedio.Exchange.Conversation.Ends.{Conversation, run, served, read, read-Conversation}

-- how often a value is latched for a device
abbrev pub latches : ℕ → ℕ
latches val = if half val == val - half val then 1 else 2

latches-cases : (val : ℕ) → (latches val ≡ 1) ⊎ (latches val ≡ 2)
latches-cases val = elim (Bool-cases (half val == val - half val)) [
  | inl same ↦ rw same (inl refl)
  | inr other ↦ rw other (inr refl)
]

latch-IsFile : (pins val : ℕ) → pins < 2 ^ 16 → IsFile (latch pins val) 6 2
latch-IsFile pins val h = record {
  printed = omega (arith, bit_and-le val 0xFF);
  are_writes = tt;
  number = refl;
  paused = refl;
}

-- The lines for a device are a file.
attenuate-IsFile :
    (mask val : ℕ) → mask < 4 → IsFile (attenuate mask val) (latches val * 6) (latches val * 2)
attenuate-IsFile mask val h = elim (Bool-cases (half val == val - half val)) [
  | inl same ↦ rw same (latch-IsFile (both_bits mask) (half val) (omega arith))
  | inr other ↦ rw other (
      append-IsFile (latch (one_bits 0 mask) (half val)) (latch (one_bits 1 mask) (val - half val))
        1 1 6 2 (latch-IsFile (one_bits 0 mask) (half val) (omega arith))
        (latch-IsFile (one_bits 1 mask) (val - half val) (omega arith)))
]

-- What a command for `count` devices comes to: it writes the lines, and they are talked over whole. For
-- each time that a value is latched, six replies are counted and eight requests: the client does not
-- end, and waits.
pub record Attenuated (written : Option (List Line)) (lines : List Line) (count : ℕ)
    (run : Option (ℤ × Sending)) (served : DeviceReads.Outcome) (read : ClientReads.Outcome)
    : Type 0 where
  pub writes_lines : written ≡ some lines
  pub talk : Conversation lines run served read
  pub messages_sent : length talk.messages ≡ count * 6
  pub last : Console
  pub waits : read ≡ ClientReads.returned last false false
  pub replies : last.num_responds ≡ count * 6
  pub requests : last.num_requests ≡ count * 8

-- The numbers of a file that latches a value once or twice for some devices.
record IsLatched (d s w p : ℕ) : Type 0 where
  pub six : w ≡ d * s * 6
  pub two : p ≡ d * s * 2
  pub some_line : 0 < p
  pub few : w + p < 2 ^ 64

latches-IsLatched :
    (d s w p : ℕ)
    → (s ≡ 1) ⊎ (s ≡ 2)
    → 0 < d
    → d ≤ 16
    → w ≡ d * (s * 6)
    → p ≡ d * (s * 2)
    → IsLatched d s w p
latches-IsLatched d s w p (inl e) h k ew ep =
    let ew' : w ≡ d * 6 = ew ∙ ap (λ (x : ℕ). d * (x * 6)) e in
    let ep' : p ≡ d * 2 = ep ∙ ap (λ (x : ℕ). d * (x * 2)) e in
    rw e
      (record { six = omega arith; two = omega arith; some_line = omega arith; few = omega arith })
latches-IsLatched d s w p (inr e) h k ew ep =
    let ew' : w ≡ d * 12 = ew ∙ ap (λ (x : ℕ). d * (x * 6)) e in
    let ep' : p ≡ d * 4 = ep ∙ ap (λ (x : ℕ). d * (x * 2)) e in
    rw e
      (record { six = omega arith; two = omega arith; some_line = omega arith; few = omega arith })

-- what do_setatten writes for a list of rows, these masks and a value
abbrev pub atten_file : BoardList → ℕ → ℕ → ℕ → List Line
atten_file lst mask_c mask_p val =
    for_mask 16 1 (bit_and mask_c 0x1FFFF) (rows lst) (attenuate (bit_and mask_p 0x03) val)

-- the devices among them
abbrev pub attenuated : BoardList → ℕ → ℕ
attenuated lst mask_c = devices 16 1 (bit_and mask_c 0x1FFFF) (rows lst)

module _ (lst : BoardList) (buf : ℕ → ℕ) (arg_cluster arg_cmd : Option (List ℕ))
    (mask_c mask_p unused val : ℕ) (junk : ℕ → (ℕ → ℕ) × (ℕ → ℕ)) (buffer : List ℕ)
    (starttime timeout starttime' timeout' deep : ℕ) (flg_randfail : Bool)
    (turns : ℕ → ℕ → ℕ → Turn) (pieces pieces' : List Buffer) where
  -- the client's run over the file, what the simulator makes of it, and what comes back
  abbrev lines : List Line
  lines = atten_file lst mask_c mask_p val

  abbrev ran : Option (ℤ × Sending)
  ran = run junk lines buffer starttime timeout starttime' timeout' deep flg_randfail turns

  abbrev answer : DeviceReads.Outcome
  answer =
      served junk lines buffer starttime timeout starttime' timeout' deep flg_randfail turns pieces

  abbrev end : ClientReads.Outcome
  end = read junk lines buffer starttime timeout starttime' timeout' deep flg_randfail turns pieces'

  -- Let do_setatten be called for a list whose rows begin with no blank, have fewer than 200
  -- characters and no newline or zero byte, with arguments with these masks and a value, at least
  -- one bit 1 to 16 of the clusters' mask having a row. Let a client that was just started run
  -- over what it writes, its bytes reach a simulator that was just started, and the answers reach
  -- the client, cut into any pieces. Whatever chance brings, do_setatten writes for each such
  -- row, in order, the row with its number and the commands that latch the halves of the value
  -- into the attenuators at the positions of the other mask's bits 0 and 1, both of a position at
  -- once where the halves are the same; and for each time that a value is latched the simulator
  -- sends six messages, and the client counts six replies, but eight requests: it has all
  -- replies, and does not end.
  pub do_setatten-Attenuated :
      IsBoardList lst
      → AllRows (rows lst)
      → AllPlain (rows lst)
      → values_of arg_cluster ≡ some (mask_c, unused)
      → values_of arg_cmd ≡ some (mask_p, val)
      → 0 < attenuated lst mask_c
      → AreBytes junk
      → sizeof_buffer * 70000 + 65543 < deep
      → ArePieces pieces
      → arrived pieces ≡ outgoing (log_of ran)
      → ArePieces pieces'
      → arrived pieces' ≡ outbox (messages_of answer)
      → Attenuated
          (do_setatten lst buf arg_cluster arg_cmd)
          lines
          (attenuated lst mask_c * latches val)
          ran
          answer
          end
  do_setatten-Attenuated valid all plain e e' some_device bytes enough are sent are' back =
      let count : ℕ = attenuated lst mask_c in
      let mask : ℕ = bit_and mask_p 0x03 in
      let f : IsFile lines (count * (latches val * 6)) (count * (latches val * 2)) =
        for_mask-IsFile (rows lst) all plain (attenuate mask val) (latches val * 6)
          (latches val * 2) (attenuate-IsFile mask val (omega (arith, bit_and-le mask_p 0x03))) 16 1
          (bit_and mask_c 0x1FFFF) in
      let n : IsLatched count (latches val) (writes lines) (pauses lines) =
        latches-IsLatched count (latches val) (writes lines) (pauses lines) (latches-cases val)
          some_device (devices-le 16 1 (bit_and mask_c 0x1FFFF) (rows lst)) f.number f.paused in
      let talk : Conversation lines ran answer end =
        read-Conversation junk lines buffer starttime timeout starttime' timeout' deep flg_randfail
          turns bytes f.printed f.are_writes enough pieces are sent pieces'
          (omega (arith, n.some_line)) n.few are' back in
      let some_pause : ltb (pauses lines) 1 ≡ false = le→ltb (pauses lines) 1 n.some_line in
      record {
        writes_lines =
            do_setatten_lem lst buf arg_cluster arg_cmd mask_c mask_p unused val valid all e e';
        talk = talk;
        messages_sent = talk.answers ∙ n.six;
        last = talk.ends.last;
        waits =
            talk.ends.returns
            ∙ ap (λ (b : Bool). ClientReads.returned talk.ends.last b b) some_pause;
        replies = talk.ends.replies ∙ n.six;
        requests = omega (arith, talk.ends.requests, n.six, n.two);
      }
