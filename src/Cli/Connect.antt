-- ===== src/Cli/Connect.antt =====
-- The handlers of utils/edio24cli.c around a connection: the message that opens it in main_cli, the
-- answers in on_udp_cli_read, and on_tcp_cli_connect, which sends the commands of the file.
use libedio.Base.{ℕ, Option, some, List, [], ◌∷◌, ◌++◌, Bool, true, false}
use libedio.Base.{◌==◌, if◌then◌else◌, ◌>>=◌, Buffer, load, ℤ, pos, negsuc}
use libedio.Packet.Create.{create_opendev, create_discoverydev}
use libedio.Client.Udp.{cli_verify_udp}
use libedio.Util.Lines.{read_file_lines}
use libedio.Cli.State.{Console}
use libedio.Cli.Command.{Done, process_command}

-- the first message, in the buffer `msg` of 5 bytes: how many bytes are sent, and the buffer. The
-- discovery sets the length to the result of its builder.
unfoldable pub first_message : Bool → Buffer → Option (ℤ × Option Buffer)
first_message true msg = create_discoverydev (some msg) 5
first_message false msg = create_opendev (some msg) 5 0 >>= λ r. some (pos 5, r.1)

-- What the UDP handler does: close the handle, verify a description, connect to the device, or stop
-- receiving.
pub data Reaction : Type 0 where
  closes stops : Reaction
  verifies : ℤ → Reaction
  connects : Reaction

-- the branches for a datagram from an address
pub react : ℕ → Buffer → Option Reaction
react nread b =
    if nread == 64
    then (do
      first ← load b 0
      (if first == b'D'
          then (cli_verify_udp (some b) 64 >>= λ ret. some (verifies ret))
          else some stops))
    else if nread == 2
    then (do
      first ← load b 0
      (if first == b'C'
          then (load b 1 >>= λ second. some (if second == 0 then connects else stops))
          else some stops))
    else some stops

-- on_udp_cli_read. After `connects` it stops receiving, too; after `verifies` it goes on.
unfoldable pub on_udp_cli_read : ℤ → Buffer → Bool → Option Reaction
unfolding react
on_udp_cli_read (negsuc n) b addressed = some closes
on_udp_cli_read (pos nread) b false = some stops
on_udp_cli_read (pos nread) b true = react nread b

-- The client while it sends the commands, with what it handed to uv_write and its pauses in order.
pub record Sending : Type 0 where
  pub console : Console
  pub log : List Done

-- process_command as the function that read_file_lines calls. What its local buffers hold at first is
-- `junk`, by the line's position.
abbrev pub command : (ℕ → (ℕ → ℕ) × (ℕ → ℕ)) → Sending → ℕ → List ℕ → ℕ → Option Sending
command junk s position mem size = do
  done ← process_command s.console (junk position).0 (junk position).1 mem
  some (record { console = done.console; log = s.log ++ done ∷ [] })

-- on_tcp_cli_connect: what is sent before the replies are read. The file is `none` where it cannot
-- be opened, and the line buffer is `none` where memory is short.
unfoldable pub on_tcp_cli_connect :
    (ℕ → (ℕ → ℕ) × (ℕ → ℕ)) → Option (List ℕ) → Console → Option (List ℕ) → Option (ℤ × Sending)
on_tcp_cli_connect junk buffer c file =
    read_file_lines (command junk) buffer (record { console = c; log = [] }) file
