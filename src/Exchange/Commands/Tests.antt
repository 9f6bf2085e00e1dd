-- ===== src/Exchange/Commands/Tests.antt =====
-- The start of a session and the run over a command file at concrete inputs.
use libedio.Base.{ℕ, ◌≡◌, arith, some, pos, true, false, List, [], ◌∷◌, if◌then◌else◌, ◌||◌, Buffer}
use libedio.Samples.{no_chance}
use libedio.Simulator.State.{Device, Turn}
use libedio.Simulator.Process.{failing}
use libedio.Simulator.Udp.{on_udp_srv_read}
use libedio.Tools.Command.{Line, dout_w, dout_r, blank, sleep}
use libedio.Tools.Command.Text.{file_text}
use libedio.Cli.State.{Console}
use libedio.Cli.Command.{Done}
use libedio.Cli.Connect.{first_message, connects, stops, on_udp_cli_read, on_tcp_cli_connect}
use libedio.Exchange.Session.{arrived}
use libedio.Exchange.Connect.{first_message-connects}
use libedio.Exchange.Commands.Follows.{Follows, AreBytes, on_tcp_cli_connect-Follows}

abbrev clear : ℕ → (ℕ → ℕ) × (ℕ → ℕ)
clear position = (λ _. 0, λ _. 0)

clear-AreBytes : AreBytes clear
clear-AreBytes position = (λ i. omega arith, λ i. omega arith)

-- "DOutW 0x0000FF 0x000025", "Sleep 1", "DOutR" and an empty line
abbrev four_lines : List Line
four_lines = dout_w 0xFF 0x25 ∷ sleep 1 ∷ dout_r ∷ blank ∷ []

abbrev console : Console
console = record {
  frame = 0;
  num_requests = 0;
  num_responds = 0;
  starttime = 0;
  timeout = 0;
  sz_data = 0;
  buffer = record { cap = 1031; byte = λ _. 0 };
}

on_tcp_cli_connect-Follows_example :
    (log : List Done) × (last : Console) × (on_tcp_cli_connect clear
        (some [])
        console
        (some (file_text four_lines))
      ≡ some (pos 0, record { console = last; log = log }))
    × Follows console four_lines log last
on_tcp_cli_connect-Follows_example =
    on_tcp_cli_connect-Follows clear clear-AreBytes four_lines console [] (omega arith)
      (omega arith)

abbrev turn : Turn
turn = record { coin = 0; chance = no_chance; fresh = λ _. 0 }

-- a device that is not in use
abbrev free : Device
free = record {
  flg_used = false;
  flg_randfail = false;
  starttime = 0;
  timeout = 0;
  sz_data = 0;
  buffer = record { cap = 65; byte = λ _. 0 };
}

abbrev message : Buffer
message = record { cap = 5; byte = λ _. 0 }

first_message-connects_example :
    (m : ℕ → ℕ) × (first_message false message ≡ some (pos 5, some (record message { byte = m })))
    × (reply : ℕ → ℕ) × (on_udp_srv_read turn free (pos 5) (some (arrived m 5 64 (λ _. 0))) true
        ≡ some (some (record { size = 2; byte = reply })))
    × (on_udp_cli_read (pos 2) (arrived reply 2 64 (λ _. 0)) true
        ≡ some (if false || failing turn free then stops else connects))
first_message-connects_example =
    first_message-connects turn free message 64 64 (λ _. 0) (λ _. 0) (omega arith) (omega arith)
      (omega arith)
