-- ===== src/Exchange/Commands/Follows.antt =====
-- The client's run over a file that the generator wrote.
use libedio.Base.{
  ℕ, zero, suc, ◌+◌, ◌<◌, ◌≤◌, ◌≡◌, ◌∙◌, refl, ap, sym, arith, Option, some, List, [], ◌∷◌, ◌++◌,
}
use libedio.Base.{IsBytes, pos, inl, inr}
use mathlib.Core.List.{append_assoc, append-nil}
use mathlib.Core.Path.{subst}
use libedio.Text.{length, drop}
use libedio.Text.Laws.{length-append}
use libedio.Util.Lines.{lines_loop, read_file_lines}
use libedio.Util.Lines.Laws.{lines_loop-line}
use libedio.Tools.Command.{
  Line, dconfig_w, dout_w, dout_r, blank, sleep, connect_to, output_power, power_arg,
}
use libedio.Tools.Command.Laws.{output_power-power_arg}
use libedio.Tools.Command.Text.{line_body, file_text}
use libedio.Tools.Command.Printed.{IsPrinted, line_body-append, length-line_body, line_body-Without}
use libedio.Cli.State.{Console}
use libedio.Cli.Command.{Done, process_command}
use libedio.Cli.Command.Laws.{Handled, IsShort, Handled-done, process_command-Handled}
use libedio.Cli.Connect.{Sending, command, on_tcp_cli_connect}
use libedio.Exchange.Commands.{meaning, order-line_body}

abbrev pub AllPrinted : List Line → Type 0
AllPrinted [] = Unit {0}
AllPrinted (l ∷ lines) = IsPrinted l × AllPrinted lines

-- The client goes through the lines: what each means is handled, in order, and each starts with the
-- state that the one before left.
pub data Follows : Console → List Line → List Done → Console → Type 0 where
  finished : (c : Console) → Follows c [] [] c
  next :
      (c : Console) (l : Line) (lines : List Line) (d : Done) (log : List Done) (last : Console)
      → Handled c (meaning l) (some d)
      → Follows d.console lines log last
      → Follows c (l ∷ lines) (d ∷ log) last

meaning-IsShort : (l : Line) → IsShort (meaning l)
meaning-IsShort (dconfig_w mask value) = omega arith
meaning-IsShort (dout_w mask value) = omega arith
meaning-IsShort dout_r = omega arith
meaning-IsShort blank = tt
meaning-IsShort (connect_to s i) = tt
meaning-IsShort (sleep n) = tt

-- A line is handled, and the frame number stays a byte.
handles :
    (c : Console) (buffer1 buffer2 : ℕ → ℕ) (l : Line) (stale : List ℕ)
    → c.frame < 256
    → IsBytes buffer1
    → IsBytes buffer2
    → IsPrinted l
    → (d : Done) × (process_command c buffer1 buffer2 (line_body l (b'\n' ∷ 0 ∷ stale)) ≡ some d)
      × Handled c (meaning l) (some d)
      × (d.console.frame < 256)
handles c buffer1 buffer2 l stale h b b' p =
    let r : Option Done = process_command c buffer1 buffer2 (line_body l (b'\n' ∷ 0 ∷ stale)) in
    let handled : Handled c (meaning l) r =
      process_command-Handled c buffer1 buffer2 _ (meaning l) h b b'
        (order-line_body l stale buffer2 p) in
    let (d, e, k) = Handled-done c (meaning l) r h (meaning-IsShort l) handled in
    (d, e, subst (Handled c (meaning l)) e handled, k)

-- What is in the local buffers of process_command at first are bytes.
abbrev pub AreBytes : (ℕ → (ℕ → ℕ) × (ℕ → ℕ)) → Type 0
AreBytes junk = (position : ℕ) → IsBytes (junk position).0 × IsBytes (junk position).1

-- a newline for each line
length-file_text : (lines : List Line) → length lines ≤ length (file_text lines)
unfolding file_text
length-file_text [] = omega arith
length-file_text (l ∷ lines) = rw (line_body-append l (b'\n' ∷ file_text lines)) (
    omega (arith, length-append (line_body l []) (b'\n' ∷ file_text lines), length-file_text lines))

module _ (junk : ℕ → (ℕ → ℕ) × (ℕ → ℕ)) (bytes : AreBytes junk) where
  -- A line in the buffer of fread_lines.
  command_lem :
      (l : Line) (s : Sending) (position size : ℕ) (stale : List ℕ)
      → IsPrinted l
      → s.console.frame < 256
      → (d : Done) × (command junk s position ((line_body l [] ++ b'\n' ∷ []) ++ 0 ∷ stale) size
          ≡ some (record { console = d.console; log = s.log ++ d ∷ [] }))
        × Handled s.console (meaning l) (some d)
        × (d.console.frame < 256)
  command_lem l s position size stale p h =
      let (b, b') = bytes position in
      let (d, e, handled, k) =
        handles s.console (junk position).0 (junk position).1 l stale h b b' p in
      let same_text : line_body l (b'\n' ∷ 0 ∷ stale)
          ≡ (line_body l [] ++ b'\n' ∷ []) ++ 0 ∷ stale =
        line_body-append l (b'\n' ∷ 0 ∷ stale)
        ∙ sym (append_assoc (line_body l []) (b'\n' ∷ []) (0 ∷ stale)) in
      (d, rw (← same_text, e) refl, handled, k)

  lines_loop-Follows :
      (lines : List Line) (fuel : ℕ) (s : Sending) (position : ℕ) (buffer : List ℕ)
      → AllPrinted lines
      → s.console.frame < 256
      → length lines < fuel
      → (log : List Done) × (last : Console) × (lines_loop
            (command junk)
            fuel
            s
            position
            buffer
            (file_text lines)
          ≡ some (record { console = last; log = s.log ++ log }))
        × Follows s.console lines log last
  unfolding file_text
  lines_loop-Follows lines zero s position buffer p h k = absurd (omega arith)
  lines_loop-Follows [] (suc fuel) s position buffer p h k = (
    [],
    s.console,
    unfold lines_loop in
        (ap (λ log. some (record { console = s.console; log = log })) (sym (append-nil s.log))),
    finished s.console,
  )
  lines_loop-Follows (l ∷ lines) (suc fuel) s position buffer p h k =
      let body : List ℕ = line_body l [] in
      let text : List ℕ = body ++ b'\n' ∷ [] in
      let (d, e, handled, small) =
        command_lem l s position (length text) (drop (length text + 1) buffer) p.0 h in
      let s' : Sending = record { console = d.console; log = s.log ++ d ∷ [] } in
      let (log, last, e', follows) =
        lines_loop-Follows lines fuel s' (position + length text)
          (text ++ 0 ∷ drop (length text + 1) buffer) p.1 small (omega arith) in
      (
        d ∷ log,
        last,
        rw (line_body-append l (b'\n' ∷ file_text lines)) (
            lines_loop-line (command junk) fuel s s' position buffer body (file_text lines)
              (line_body-Without b'\n' l (inl refl) p.0) (line_body-Without 0 l (inr refl) p.0)
              (omega (arith, length-line_body l p.0)) e
            ∙ e'
            ∙ ap (λ log. some (record { console = last; log = log }))
                (append_assoc s.log (d ∷ []) log)),
        next s.console l lines d log last handled follows,
      )

  -- For a file of the generator's lines, with numbers of 24 bits, pauses of one digit, and rows
  -- of fewer than 200 characters with no newline and no zero byte, a client with a frame number
  -- below 256 reads the file to its end and carries out what each line means, in order, each from
  -- the state that the line before left: it sends a packet that the verification accepts, with
  -- the data of the line and the next frame number, it pauses, or it skips the line.
  pub on_tcp_cli_connect-Follows :
      (lines : List Line) (c : Console) (buffer : List ℕ)
      → AllPrinted lines
      → c.frame < 256
      → (log : List Done) × (last : Console) × (on_tcp_cli_connect junk
            (some buffer)
            c
            (some (file_text lines))
          ≡ some (pos 0, record { console = last; log = log }))
        × Follows c lines log last
  unfolding on_tcp_cli_connect read_file_lines
  on_tcp_cli_connect-Follows lines c buffer p h =
      let (log, last, e, follows) =
        lines_loop-Follows lines (length (file_text lines) + 1) (record { console = c; log = [] }) 0
          buffer p h (omega (arith, length-file_text lines)) in
      (log, last, rw e refl, follows)

-- The lines that the generator writes for the switches of a mask, and what the client makes of them:
-- it makes all pins outputs, and sets the first port to the mask.
pub power_arg-on_tcp_cli_connect :
    (junk : ℕ → (ℕ → ℕ) × (ℕ → ℕ)) (mask_p : ℕ) (c : Console) (buffer : List ℕ)
    → AreBytes junk
    → mask_p < 256
    → c.frame < 256
    → (lines : List Line) × (log : List Done) × (last : Console) × (output_power (power_arg mask_p)
        ≡ some (pos 0, lines))
      × (on_tcp_cli_connect junk (some buffer) c (some (file_text lines))
          ≡ some (pos 0, record { console = last; log = log }))
      × Follows c (dconfig_w 0xFFFFFF 0 ∷ dout_w 0x0000FF mask_p ∷ blank ∷ []) log last
power_arg-on_tcp_cli_connect junk mask_p c buffer bytes small h =
    let lines : List Line = dconfig_w 0xFFFFFF 0 ∷ dout_w 0x0000FF mask_p ∷ blank ∷ [] in
    let (log, last, e, follows) =
      on_tcp_cli_connect-Follows junk bytes lines c buffer (omega arith) h in
    (lines, log, last, output_power-power_arg mask_p small, e, follows)
