-- ===== src/Exchange/Tests.antt =====
-- What one side of src/libedio24.c makes of the other side's bytes, at concrete inputs.
use libedio.Base.{ℕ, ◌≡◌, refl, arith, false, some, pos}
use libedio.Samples.{blank, blank-IsBytes, roomy, no_chance}
use libedio.Packet.Request.{Request, doutw, memw, user, build}
use libedio.Packet.Verify.Laws.{count_of}
use libedio.Exchange.Wrapped.{TakesLittle, build-wraps}
use libedio.Packet.Create.{create_cmd_doutw}
use libedio.Packet.Verify.{pkt_verify}
use libedio.Packet.Read.{read_value}
use libedio.Server.Tcp.{Pointers, svr_process_tcp, reply}
use libedio.Server.Tcp.Process
use libedio.Client.Tcp.{cli_verify_tcp}
use libedio.Client.Tcp.Laws
use libedio.Exchange.Request.{build-pkt_verify, build-svr_process_tcp, create_cmd_doutw-read_value}
use libedio.Exchange.Session.{arrived, discovery-cli_verify_udp, create_opendev-on_udp_srv_read}
use libedio.Simulator.State.{Device, Message, Turn, initial}
use libedio.Simulator.Udp.{on_udp_srv_read}
use libedio.Client.Udp.{cli_verify_udp}
use libedio.Packet.Create.{create_opendev, create_discoverydev}
use libedio.Base.{◌*◌, ◌+◌, ◌^◌, true}
use libedio.Exchange.Reply.{reply-cli_verify_tcp}

build-pkt_verify_example :
    (m : ℕ → ℕ) × (build (doutw 0xFF 0x0A) (some blank) 32 (some 255)
      ≡ some
          (record { ret = pos 13; buffer = some (record blank { byte = m }); frame_id = some 0 }))
    × (pkt_verify (some (record blank { byte = m })) 32 ≡ some (pos 0))
build-pkt_verify_example =
    build-pkt_verify (doutw 0xFF 0x0A) blank 32 255 blank-IsBytes (omega arith) (omega arith)
      (omega arith) 32 (omega arith) (omega arith)

build-svr_process_tcp_example :
    (m : ℕ → ℕ) × (build (doutw 0xFF 0x0A) (some blank) 32 (some 255)
      ≡ some
          (record { ret = pos 13; buffer = some (record blank { byte = m }); frame_id = some 0 }))
    × (p : Pointers) × (svr_process_tcp false
          (some (record blank { byte = m }))
          32
          no_chance
          (Process.shown roomy 70000 0 0 0)
        ≡ some (pos 0, p))
    × (p.sz_processed ≡ some 13)
    × (p.sz_out ≡ some 7)
unfolding libedio.Server.Tcp.case_of
build-svr_process_tcp_example =
    build-svr_process_tcp (doutw 0xFF 0x0A) blank 32 255 blank-IsBytes (omega arith) (omega arith)
      (omega arith) false no_chance roomy 32 70000 (omega arith) (omega arith) (omega arith)
      (omega arith) (omega arith) (omega arith) refl 0 0 0

-- a write of 65534 bytes to the user memory
abbrev long_write : Request
long_write = memw user 0 65534 roomy

build-wraps_example :
    (m : ℕ → ℕ) × (build long_write (some roomy) 70000 (some 1)
      ≡ some (record {
        ret = pos 65543;
        buffer = some (record roomy { byte = m });
        frame_id = some 2;
      }))
    × (count_of m + 2 ^ 16 ≡ 65536)
    × TakesLittle (
        svr_process_tcp false
          (some (record roomy { byte = m }))
          65543
          no_chance
          (Process.shown blank 32 0 0 0))
build-wraps_example =
    build-wraps long_write roomy 70000 1 false no_chance blank 65543 32 0 0 0 (λ i. omega arith)
      (omega arith) (omega arith, omega arith, omega arith, λ i. omega arith) (omega arith)
      (omega arith) (omega arith) (omega arith) (omega arith)

create_cmd_doutw-read_value_example :
    (m : ℕ → ℕ) × (create_cmd_doutw (some blank) 32 (some 4) 0x0000FF 0x123456
      ≡ some
          (record { ret = pos 13; buffer = some (record blank { byte = m }); frame_id = some 5 }))
    × (read_value (some (record blank { byte = m })) 32 0 3 (some 7) ≡ some (pos 0, some 0x0000FF))
    × (read_value (some (record blank { byte = m })) 32 3 3 (some 7) ≡ some (pos 0, some 0x123456))
create_cmd_doutw-read_value_example =
    create_cmd_doutw-read_value blank 32 4 0x0000FF 0x123456 7 blank-IsBytes (omega arith)
      (omega arith) (omega arith) (omega arith)

-- the reply to an LED request: no data
reply-cli_verify_tcp_example :
    (m : ℕ → ℕ) × (reply blank 0x50 1 0 0 (some blank) (Process.shown blank 32 0 0 0)
      ≡ some (
        pos 0,
        record {
          buffer_out = some (record blank { byte = m });
          sz_out = some 7;
          sz_processed = some 8;
          sz_needed_in = some 0;
          sz_needed_out = some 0;
        },
      ))
    × ((processed needed_in : ℕ)
        → cli_verify_tcp (some (record blank { byte = m })) 7 (Laws.shown processed needed_in)
          ≡ some (pos 0, Laws.shown 7 0))
unfolding libedio.Client.Tcp.case_of
reply-cli_verify_tcp_example =
    reply-cli_verify_tcp blank blank 0x50 1 0 0 (Process.shown blank 32 0 0 0) blank-IsBytes
      blank-IsBytes (omega arith) (omega arith) (omega arith) (omega arith) (omega arith) refl

abbrev free_device : Device
free_device = initial 0 0 false

abbrev turn : Turn
turn = record { coin = 0; chance = no_chance; fresh = λ _. 0 }

discovery-cli_verify_udp_example :
    (m : ℕ → ℕ) × (create_discoverydev (some blank) 1
      ≡ some (pos 1, some (record blank { byte = m })))
    × (reply : ℕ → ℕ) × (on_udp_srv_read turn free_device
          (pos 1)
          (some (arrived m 1 65536 (λ _. 7)))
          true
        ≡ some (some (record { size = 64; byte = reply })))
    × (cli_verify_udp (some (arrived reply 64 65536 (λ _. 9))) 64 ≡ some (pos 0))
unfolding libedio.Simulator.State.initial
discovery-cli_verify_udp_example =
    discovery-cli_verify_udp turn free_device blank 1 65536 65536 (λ _. 7) (λ _. 9) (omega arith)
      (omega arith) (omega arith) (omega arith) refl

create_opendev-on_udp_srv_read_example :
    (m : ℕ → ℕ) × (create_opendev (some blank) 5 0x12345678
      ≡ some (pos 5, some (record blank { byte = m })))
    × (m 1 + m 2 * 2 ^ 8 + m 3 * 2 ^ 16 + m 4 * 2 ^ 24 ≡ 0x12345678)
    × (reply : ℕ → ℕ) × (on_udp_srv_read turn free_device
          (pos 5)
          (some (arrived m 5 65536 (λ _. 7)))
          true
        ≡ some (some (record { size = 2; byte = reply })))
    × (reply 0 ≡ b'C')
    × (reply 1 ≡ 0)
unfolding libedio.Simulator.State.initial
create_opendev-on_udp_srv_read_example =
    create_opendev-on_udp_srv_read turn free_device blank 5 0x12345678 65536 (λ _. 7) (omega arith)
      (omega arith) (omega arith) (omega arith)
