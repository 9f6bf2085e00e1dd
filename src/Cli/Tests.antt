-- ===== src/Cli/Tests.antt =====
-- The client of utils/edio24cli.c at concrete inputs.
use libedio.Base.{ℕ, ◌≡◌, refl, arith, some, pos, List, [], ◌∷◌, IsBytes}
use libedio.Samples.{status_request, status_request-IsBytes}
use libedio.Text.{literal}
use libedio.Packet.Request.{doutw}
use libedio.Cli.State.{Console, IsConsole}
use libedio.Cli.Process.{process_data}
use libedio.Cli.Process.Laws.{Ended, process_data-Ended}
use libedio.Cli.Receive.{on_tcp_cli_read}
use libedio.Cli.Receive.Laws.{Handled, on_tcp_cli_read-Handled}
use libedio.Cli.Command.{creates, order, process_command}
use libedio.Cli.Command.Laws
use libedio.Cli.Command.Laws.{process_command-Handled}

-- a client that has sent two requests, and received eleven bytes
abbrev waiting : Console
waiting = record {
  frame = 2;
  num_requests = 2;
  num_responds = 0;
  starttime = 0;
  timeout = 0;
  sz_data = 11;
  buffer = record { cap = 1031; byte = status_request.byte };
}

waiting-IsConsole : IsConsole waiting
waiting-IsConsole = record { size = refl; held = omega arith; bytes = status_request-IsBytes }

process_data-Ended_example : Ended waiting (process_data waiting)
process_data-Ended_example = process_data-Ended waiting waiting-IsConsole

on_tcp_cli_read-Handled_example :
    Handled status_request 7 waiting (on_tcp_cli_read waiting (pos 7) status_request)
on_tcp_cli_read-Handled_example =
    on_tcp_cli_read-Handled waiting 6 status_request waiting-IsConsole status_request-IsBytes
      (omega arith)

abbrev clear : ℕ → ℕ
clear i = 0

clear-IsBytes : IsBytes clear
clear-IsBytes i = omega arith

-- "DOutW 0xFF 0x25", as a string in memory
abbrev dout_line : List ℕ
dout_line =
    b'D' ∷ b'O' ∷ b'u' ∷ b't' ∷ b'W' ∷ b' ' ∷ b'0' ∷ b'x' ∷ b'F' ∷ b'F' ∷ b' ' ∷ b'0' ∷ b'x' ∷ b'2'
    ∷ b'5' ∷ b'\n' ∷ 0 ∷ []

dout_line-order : order dout_line clear ≡ some (creates (doutw 0xFF 0x25))
unfolding order libedio.Text.Strtol.strtol
dout_line-order = refl

process_command-Handled_example :
    Laws.Handled waiting (creates (doutw 0xFF 0x25)) (process_command waiting clear clear dout_line)
process_command-Handled_example =
    process_command-Handled waiting clear clear dout_line (creates (doutw 0xFF 0x25)) (omega arith)
      clear-IsBytes clear-IsBytes dout_line-order
