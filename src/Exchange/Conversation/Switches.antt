-- ===== src/Exchange/Conversation/Switches.antt =====
-- The command for switches of utils/gencctcmd.c, from its arguments to the devices, for the file
-- that do_setpower writes.
use libedio.Base.{
  ℕ, ◌+◌, ◌*◌, ◌/◌, ◌<◌, ◌≡◌, ◌∙◌, ap, refl, arith, bit_and, bit_and-le, Option, some, ℤ,
}
use libedio.Base.{List, [], ◌∷◌, Bool, true, Buffer, ltb}
use libedio.Stream.{arrived, ArePieces}
use libedio.Tools.Boards.{BoardList}
use libedio.Tools.Boards.Laws.{IsBoardList, rows}
use libedio.Tools.Command.{Line, dconfig_w, dout_w, blank}
use libedio.Tools.Generate.{values_of, do_setpower}
use libedio.Tools.Generate.Laws.{AllRows, for_mask, do_setpower_lem}
use libedio.Cli.State.{Console}
use libedio.Cli.Connect.{Sending}
use libedio.Text.{length}
use libedio.Simulator.Receive as DeviceReads
use libedio.Cli.Receive as ClientReads
use libedio.Simulator.State.{Turn, sizeof_buffer}
use libedio.Exchange.Commands.Follows.{AreBytes}
use libedio.Exchange.Conversation.{outgoing, outbox, log_of, messages_of, pauses}
use libedio.Exchange.Conversation.Devices.{AllPlain, devices, devices-le, IsFile, for_mask-IsFile}
use libedio.Exchange.Conversation.Ends.{Conversation, run, served, read, read-Conversation}

-- What a command for `count` devices comes to: it writes the lines, they are talked over whole, and the
-- client ends, with two replies for each device.
pub record Switched (written : Option (List Line)) (lines : List Line) (count : ℕ)
    (run : Option (ℤ × Sending)) (served : DeviceReads.Outcome) (read : ClientReads.Outcome)
    : Type 0 where
  pub writes_lines : written ≡ some lines
  pub talk : Conversation lines run served read
  pub messages_sent : length talk.messages ≡ 2 * count
  pub last : Console
  pub ends : read ≡ ClientReads.returned last true true
  pub replies : last.num_responds ≡ 2 * count

-- the lines for the switches of a device
abbrev switch_lines : ℕ → List Line
switch_lines mask_p =
    dconfig_w 0xFFFFFF 0 ∷ dout_w 0x0000FF (bit_and mask_p 0x01FF / 2) ∷ blank ∷ []

switch_lines-IsFile : (mask_p : ℕ) → IsFile (switch_lines mask_p) 2 0
switch_lines-IsFile mask_p = record {
  printed = omega (arith, bit_and-le mask_p 0x01FF);
  are_writes = tt;
  number = refl;
  paused = refl;
}

-- what do_setpower writes for a list of rows and these masks
abbrev pub switch_file : BoardList → ℕ → ℕ → List Line
switch_file lst mask_c mask_p =
    for_mask 16 1 (bit_and mask_c 0x1FFFF) (rows lst) (switch_lines mask_p)

-- the devices among them
abbrev pub switched : BoardList → ℕ → ℕ
switched lst mask_c = devices 16 1 (bit_and mask_c 0x1FFFF) (rows lst)

module _ (lst : BoardList) (buf : ℕ → ℕ) (arg_cluster arg_cmd : Option (List ℕ))
    (mask_c mask_p unused val : ℕ) (junk : ℕ → (ℕ → ℕ) × (ℕ → ℕ)) (buffer : List ℕ)
    (starttime timeout starttime' timeout' deep : ℕ) (flg_randfail : Bool)
    (turns : ℕ → ℕ → ℕ → Turn) (pieces pieces' : List Buffer) where
  -- the client's run over the file, what the simulator makes of it, and what comes back
  abbrev lines : List Line
  lines = switch_file lst mask_c mask_p

  abbrev ran : Option (ℤ × Sending)
  ran = run junk lines buffer starttime timeout starttime' timeout' deep flg_randfail turns

  abbrev answer : DeviceReads.Outcome
  answer =
      served junk lines buffer starttime timeout starttime' timeout' deep flg_randfail turns pieces

  abbrev end : ClientReads.Outcome
  end = read junk lines buffer starttime timeout starttime' timeout' deep flg_randfail turns pieces'

  -- Let do_setpower be called for a list whose rows begin with no blank, have fewer than 200
  -- characters and no newline or zero byte, with arguments with these masks, at least one bit 1
  -- to 16 of the clusters' mask having a row. Let a client that was just started run over what it
  -- writes, its bytes reach a simulator that was just started, and the answers reach the client,
  -- cut into any pieces. Whatever chance brings, do_setpower writes for each such row, in order,
  -- the row with its number and the commands that make all pins outputs and set the first port to
  -- the bits 1 to 8 of the other mask; the simulator sends two messages for each device, and the
  -- client counts two replies for each and ends.
  pub do_setpower-Switched :
      IsBoardList lst
      → AllRows (rows lst)
      → AllPlain (rows lst)
      → values_of arg_cluster ≡ some (mask_c, unused)
      → values_of arg_cmd ≡ some (mask_p, val)
      → 0 < switched lst mask_c
      → AreBytes junk
      → sizeof_buffer * 70000 + 65543 < deep
      → ArePieces pieces
      → arrived pieces ≡ outgoing (log_of ran)
      → ArePieces pieces'
      → arrived pieces' ≡ outbox (messages_of answer)
      → Switched
          (do_setpower lst buf arg_cluster arg_cmd)
          lines
          (switched lst mask_c)
          ran
          answer
          end
  do_setpower-Switched valid all plain e e' some_device bytes enough are sent are' back =
      let f : IsFile lines (switched lst mask_c * 2) (switched lst mask_c * 0) =
        for_mask-IsFile (rows lst) all plain (switch_lines mask_p) 2 0 (switch_lines-IsFile mask_p)
          16 1 (bit_and mask_c 0x1FFFF) in
      let count_le = devices-le 16 1 (bit_and mask_c 0x1FFFF) (rows lst) in
      let talk : Conversation lines ran answer end =
        read-Conversation junk lines buffer starttime timeout starttime' timeout' deep flg_randfail
          turns bytes f.printed f.are_writes enough pieces are sent pieces'
          (omega (arith, f.number, f.paused)) (omega (arith, f.number, f.paused, count_le)) are'
          back in
      let zero_pauses : pauses lines ≡ 0 = omega (arith, f.paused) in
      let no_pause : ltb (pauses lines) 1 ≡ true = rw zero_pauses refl in
      record {
        writes_lines =
            do_setpower_lem lst buf arg_cluster arg_cmd mask_c mask_p unused val valid all e e';
        talk = talk;
        messages_sent = omega (arith, talk.answers, f.number);
        last = talk.ends.last;
        ends =
            talk.ends.returns ∙ ap (λ (b : Bool). ClientReads.returned talk.ends.last b b) no_pause;
        replies = omega (arith, talk.ends.replies, f.number);
      }
