-- ===== src/Cli/Command.antt =====
-- process_command of utils/edio24cli.c: what the client sends for a line of its command file. `mem`
-- is memory from `buf` on, behind the end of the line too, since a short line is read past its end.
pub mod Numbers
pub mod Orders
pub mod Laws
use libedio.Base.{
  ℕ, zero, suc, ◌+◌, ◌-◌, ◌*◌, ◌%◌, ◌^◌, Option, none, some, List, [], ◌∷◌, Bool, true, false,
}
use libedio.Base.{not, ltb, ◌==◌, if◌then◌else◌, ◌>>=◌, Buffer, memmove, ℤ, pos, negsuc}
use libedio.Packet.Frame.{Created}
use libedio.Packet.Request.{
  Area, conf, settings, boot, Request, din, doutr, dconfr, counterr, counterw, status, netconf,
  firmware, doutw, dconfw, blinkled, memr, memw, build,
}
use libedio.Text.{length, drop, starts_with, literal, c_string}
use libedio.Text.Strtol.{strtol}
use libedio.Util.Hex.{parse_hex_buf}
use libedio.Cli.State.{Console}
use mathlib.Core.Option

-- What the line asks for: a packet, a pause of some microseconds, or nothing.
pub data Order : Type 0 where
  creates : Request → Order
  sleeps : ℕ → Order
  parse_failed unknown : Order

-- sizeof (buffer1), and sizeof (buffer2)
abbrev pub sizeof_buffers : ℕ
sizeof_buffers = 100

-- strtol (buf + off, &endptr, 16), then strtol (endptr + 1, &endptr, 16)
pub two_numbers : ℕ → List ℕ → (ℕ → ℕ → Request) → Option Order
two_numbers off mem request = do
  (first, rest) ← strtol 16 (drop off mem)
  (second, end) ← strtol 16 (drop 1 rest)
  some (creates (request first second))

-- the pins: `mask` and `value` are of 32 bits
abbrev pub pins : (ℕ → ℕ → Request) → ℕ → ℕ → Request
pins request mask value = request (mask % 2 ^ 32) (value % 2 ^ 32)

-- a memory read: the address and the count are converted to 16 bits
abbrev pub read_of : Area → ℕ → ℕ → Request
read_of area address count = memr area (address % 2 ^ 16) (count % 2 ^ 16)

-- what the result of parse_hex_buf leads to
abbrev pub write_of : Area → ℕ → ℤ → Buffer → Order
write_of area address (negsuc n) buffer2 = parse_failed
write_of area address (pos n) buffer2 = creates (memw area (address % 2 ^ 16) (n % 2 ^ 16) buffer2)

-- a memory write: an address, and bytes that parse_hex_buf reads into `buffer2`
pub written : Area → ℕ → List ℕ → (ℕ → ℕ) → Option Order
written area off mem buffer2 = do
  (address, rest) ← strtol 16 (drop off mem)
  cstr ← c_string (drop 1 rest)
  (count, parsed) ←
      parse_hex_buf (some cstr) (length cstr) (record { cap = sizeof_buffers; byte = buffer2 })
        sizeof_buffers
  some (write_of area address count parsed)

-- the branch of "BlinkLED": the address is converted to 8 bits
pub blink : List ℕ → Option Order
blink mem = do (address, rest) ← strtol 16 (drop 9 mem); some (creates (blinkled (address % 2 ^ 8)))

-- the branch of "Sleep": usleep takes 32 bits
pub pause_of : List ℕ → Option Order
pause_of mem = do (count, rest) ← strtol 10 (drop 6 mem); some (sleeps (count % 2 ^ 32))

-- A chain of comparisons: the first name that the line begins with decides.
pub first_match : List ℕ → List (List ℕ × Option Order) → Option Order
first_match mem [] = some unknown
first_match mem ((name, then_order) ∷ rows) =
    let others = first_match mem rows in if starts_with name mem then then_order else others

-- The branches of the function up to the creation of the packet, in order. "Reset" asks for the
-- status.
pub branches : List ℕ → (ℕ → ℕ) → List (List ℕ × Option Order)
unfolding two_numbers written blink pause_of
branches mem buffer2 =
    (literal "DOutW", two_numbers 6 mem (pins doutw))
    ∷ (literal "DConfigW", two_numbers 9 mem (pins dconfw))
    ∷ (literal "DIn", some (creates din))
    ∷ (literal "DOutR", some (creates doutr))
    ∷ (literal "DConfigR", some (creates dconfr))
    ∷ (literal "CounterR", some (creates counterr))
    ∷ (literal "CounterW", some (creates counterw))
    ∷ (literal "BlinkLED", blink mem)
    ∷ (literal "Reset", some (creates status))
    ∷ (literal "Status", some (creates status))
    ∷ (literal "NetworkConfig", some (creates netconf))
    ∷ (literal "FirmwareUpgrade", some (creates firmware))
    ∷ (literal "BootloaderMemoryR", two_numbers 14 mem (read_of boot))
    ∷ (literal "SettingsMemoryR", two_numbers 14 mem (read_of settings))
    ∷ (literal "ConfigMemoryR", two_numbers 14 mem (read_of conf))
    ∷ (literal "ConfigMemoryW", written conf 14 mem buffer2)
    ∷ (literal "SettingsMemoryW", written settings 16 mem buffer2)
    ∷ (literal "BootloaderMemoryW", written boot 18 mem buffer2)
    ∷ (literal "Sleep", pause_of mem)
    ∷ []

-- what the line asks for
unfoldable pub order : List ℕ → (ℕ → ℕ) → Option Order
unfolding first_match branches
order mem buffer2 = first_match mem (branches mem buffer2)

-- What a line leads to: the client after it, the bytes handed to uv_write if any, and the pause in
-- microseconds.
pub record Done : Type 0 where
  pub console : Console
  pub sent : Option Buffer
  pub pause : ℕ

-- the bytes that send_buffer hands to uv_write: a copy of the first `szbuf` bytes of `buffer1`
unfoldable pub send_buffer : Buffer → ℕ → Option Buffer
send_buffer buffer1 szbuf = memmove (record { cap = szbuf; byte = λ _. 0 }) 0 buffer1 szbuf

-- the end of the function, for what a builder left; `num_requests` is a `size_t`
unfoldable pub send_created : Console → Created → Option Done
unfolding send_buffer
send_created c created = elim created.ret [
  | negsuc n ↦
      Option.map (λ frame. record { console = record c { frame = frame }; sent = none; pause = 0 })
        created.frame_id
  | pos n ↦ do
    frame ← created.frame_id
    buffer1 ← created.buffer
    sent ← (if ltb sizeof_buffers n then none else send_buffer buffer1 n)
    some (record {
      console = record c { frame = frame; num_requests = (c.num_requests + 1) % 2 ^ 64 };
      sent = some sent;
      pause = 0;
    })
]

-- the creation of the packet, and the end of the function. After "Sleep" `ret` is 0, so an empty
-- buffer is sent and a request counted.
unfoldable pub carry_out : Console → (ℕ → ℕ) → Order → Option Done
unfolding send_created
carry_out c buffer1 parse_failed = some (record { console = c; sent = none; pause = 0 })
carry_out c buffer1 unknown = some (record { console = c; sent = none; pause = 0 })
carry_out c buffer1 (sleeps count) = do
  sent ← send_buffer (record { cap = sizeof_buffers; byte = buffer1 }) 0
  some (record {
    console = record c { num_requests = (c.num_requests + 1) % 2 ^ 64 };
    sent = some sent;
    pause = count;
  })
carry_out c buffer1 (creates request) = do
  created ←
      build request (some (record { cap = sizeof_buffers; byte = buffer1 })) sizeof_buffers
        (some c.frame)
  send_created c created

-- process_command: `buffer1` and `buffer2` are what the two local buffers hold at first. It returns 0
-- on every path. `none` is undefined behaviour or a failed assertion.
unfoldable pub process_command : Console → (ℕ → ℕ) → (ℕ → ℕ) → List ℕ → Option Done
unfolding order carry_out
process_command c buffer1 buffer2 mem = order mem buffer2 >>= carry_out c buffer1
