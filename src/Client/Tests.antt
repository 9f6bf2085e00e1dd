-- ===== src/Client/Tests.antt =====
-- edio24_cli_verify_tcp and edio24_cli_verify_udp of src/libedio24.c at concrete inputs.
use libedio.Base.{zero, suc, ◌≡◌, refl, arith, some, none, Buffer}
use libedio.Samples.{status_request, status_request-IsBytes}
use libedio.Client.Tcp.{cli_verify_tcp}
use libedio.Client.Tcp.Laws.{Checked, shown, cli_verify_tcp-Checked}
use libedio.Client.Udp.{cli_verify_udp}
use libedio.Client.Udp.Laws.{cli_verify_udp-overrun}

cli_verify_tcp-Checked_example :
    Checked status_request 7 (cli_verify_tcp (some status_request) 7 (shown 3 4))
cli_verify_tcp-Checked_example =
    cli_verify_tcp-Checked status_request 7 3 4 status_request-IsBytes (omega arith) (omega arith)
      (omega arith)

-- a datagram of 64 bytes, all 'D'
abbrev all_d : Buffer
all_d = record { cap = 64; byte = λ _. b'D' }

-- a 'D' followed by zero bytes
abbrev nameless : Buffer
nameless = record { cap = 64; byte = λ i. elim i [ zero ↦ b'D' | suc _ ↦ 0 ] }

cli_verify_udp-overrun_example : cli_verify_udp (some all_d) 64 ≡ none
cli_verify_udp-overrun_example =
    cli_verify_udp-overrun all_d 64 (omega arith) (omega arith) refl (λ j h k. omega arith)
