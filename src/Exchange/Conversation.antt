-- ===== src/Exchange/Conversation.antt =====
-- A whole conversation of utils/edio24cli.c with utils/edio24sim.c: the client sends the commands of a
-- file, the simulator answers, and the client counts the replies. What TCP does with the bytes is any
-- cut into pieces.
pub mod Requests
pub mod Replies
pub mod Ends
pub mod Devices
pub mod Switches
pub mod Attenuators
mod Tests
use libedio.Base.{ℕ, ◌+◌, ◌≤◌, ◌≡◌, ◌⊎◌, Option, none, some, List, [], ◌∷◌, ◌++◌, Buffer, ℤ}
use libedio.Protocol.{cmd_dout_w, cmd_dconf_w}
use libedio.Text.{length}
use libedio.Util.Strip.{byte_of}
use libedio.Stream.{bytes_of}
use libedio.Tools.Command.{Line, dconfig_w, dout_w, dout_r, blank, sleep}
use libedio.Cli.State.{Console}
use libedio.Cli.Command.{Done}
use libedio.Cli.Connect.{Sending}
use libedio.Simulator.Receive.{Outcome, returned, undefined, out_of_fuel}
use libedio.Simulator.State.{Message}

-- the bytes that a line of the command file sends
abbrev pub sent_bytes : Option Buffer → List ℕ
sent_bytes none = []
sent_bytes (some b) = bytes_of b.byte b.cap

-- what the client writes to the connection
abbrev pub outgoing : List Done → List ℕ
outgoing [] = []
outgoing (d ∷ log) = sent_bytes d.sent ++ outgoing log

-- what the simulator writes to it
abbrev pub outbox : List Message → List ℕ
outbox [] = []
outbox (reply ∷ replies) = bytes_of reply.byte reply.size ++ outbox replies

-- The lines that gencctcmd writes for the attenuators and the switches: no line reads the pins.
abbrev pub AreWrites : List Line → Type 0
AreWrites [] = Unit {0}
AreWrites (dout_r ∷ lines) = ⊥
AreWrites (l ∷ lines) = AreWrites lines

-- the number of lines that write pins, and that of pauses
abbrev pub writes : List Line → ℕ
writes [] = 0
writes (dconfig_w mask value ∷ lines) = writes lines + 1
writes (dout_w mask value ∷ lines) = writes lines + 1
writes (l ∷ lines) = writes lines

abbrev pub pauses : List Line → ℕ
pauses [] = 0
pauses (sleep n ∷ lines) = pauses lines + 1
pauses (l ∷ lines) = pauses lines

-- A packet that writes pins, of thirteen bytes.
abbrev pub IsWrite : List ℕ → Type 0
IsWrite p = (length p ≡ 13) × ((byte_of p 1 ≡ cmd_dout_w) ⊎ (byte_of p 1 ≡ cmd_dconf_w))

abbrev pub AllWrites : List (List ℕ) → Type 0
AllWrites [] = Unit {0}
AllWrites (p ∷ ps) = IsWrite p × AllWrites ps

-- what the run over a command file leaves: what was sent, and the client
abbrev pub log_of : Option (ℤ × Sending) → List Done
log_of none = []
log_of (some (ret, s)) = s.log

abbrev pub console_of : Console → Option (ℤ × Sending) → Console
console_of c none = c
console_of c (some (ret, s)) = s.console

-- what the simulator sent
abbrev pub messages_of : Outcome → List Message
messages_of (returned d messages closed) = messages
messages_of undefined = []
messages_of out_of_fuel = []
