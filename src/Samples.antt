-- ===== src/Samples.antt =====
-- Data that the tests share: buffers, packets, and what a call draws by chance.
use libedio.Base.{refl, arith, [], ◌∷◌, Buffer, IsBytes, write_all, write_all-IsBytes}
use libedio.Protocol.{msg_start, cmd_status}
use libedio.Packet.Verify.Laws.{IsWhole}
use libedio.Server.Tcp.{Chance}

-- a clear buffer of 32 bytes
abbrev pub blank : Buffer
blank = record { cap = 32; byte = λ _. 0 }

pub blank-IsBytes : IsBytes blank.byte
blank-IsBytes i = omega arith

-- a clear buffer with room for any reply
abbrev pub roomy : Buffer
roomy = record { cap = 70000; byte = λ _. 0 }

-- a status request with frame number 0, in a buffer of 32 bytes
abbrev pub status_request : Buffer
status_request = record blank {
  byte = write_all (λ _. 0) ((0, msg_start) ∷ (1, cmd_status) ∷ (6, 0xD2) ∷ []);
}

pub status_request-IsBytes : IsBytes status_request.byte
status_request-IsBytes =
    write_all-IsBytes (λ _. 0) ((0, msg_start) ∷ (1, cmd_status) ∷ (6, 0xD2) ∷ []) blank-IsBytes

pub status_request-IsWhole : IsWhole status_request.byte 32
status_request-IsWhole = (omega arith, refl)

abbrev pub no_chance : Chance
no_chance = record { rand = 0; address = 0; sz_data = 0 }
