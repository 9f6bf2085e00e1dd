-- ===== src/Packet/Tests.antt =====
-- Packets of src/libedio24.c at concrete inputs.
use libedio.Base.{◌≡◌, ◌⊎◌, arith, some, none, update, pos, negsuc}
use libedio.Samples.{
  blank, blank-IsBytes, status_request, status_request-IsBytes, status_request-IsWhole,
}
use libedio.Packet.Frame.{reject}
use libedio.Packet.Request.{user, memw, memr, doutw, build, payload}
use libedio.Packet.Request.Written.{Builds}
use libedio.Packet.Request.Builds.{build-Builds}
use libedio.Packet.Request.Rejects.{too_small, build-Refused, build-overrun}
use libedio.Packet.Verify.{pkt_verify}
use libedio.Packet.Verify.Laws.{IsWhole, pkt_verify_cases, pkt_verify-update}

build-Builds_example :
    Builds
      (build (doutw 0xFF 0x0A) (some blank) 32 (some 255))
      blank
      255
      0x03
      6
      (payload (doutw 0xFF 0x0A))
build-Builds_example =
    build-Builds (doutw 0xFF 0x0A) blank 32 255 blank-IsBytes (omega arith) (omega arith)

pkt_verify_cases_example :
    ((pkt_verify (some status_request) 32 ≡ some (pos 0)) × IsWhole status_request.byte 32)
    ⊎ ((pkt_verify (some status_request) 32 ≡ some (negsuc 0)) × ¬ IsWhole status_request.byte 32)
pkt_verify_cases_example = pkt_verify_cases status_request 32 status_request-IsBytes (omega arith)

-- the frame number of the packet changed from 0 to 9
pkt_verify-update_example :
    pkt_verify (some (record status_request { byte = update status_request.byte 2 9 })) 32
    ≡ some (negsuc 0)
pkt_verify-update_example =
    pkt_verify-update status_request 32 2 9 status_request-IsBytes (omega arith)
      status_request-IsWhole (omega arith) (omega arith) (omega arith) (omega arith) (omega arith)

build-Refused_example :
    build (memr user 0x10 4) (some blank) 10 (some 3) ≡ reject (some blank) (some 3)
build-Refused_example =
    build-Refused (memr user 0x10 4) (some blank) 10 (some 3) (too_small blank 10 3 (omega arith))

-- 40 bytes for a buffer of 32, with its true size
build-overrun_example :
    build (memw user 0 40 (record { cap = 40; byte = λ _. 7 })) (some blank) 32 (some 3) ≡ none
build-overrun_example =
    build-overrun user blank (record { cap = 40; byte = λ _. 7 }) 32 3 0 40 (omega arith)
      (omega arith) (omega arith)
