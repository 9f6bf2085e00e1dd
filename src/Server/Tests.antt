-- ===== src/Server/Tests.antt =====
-- edio24_svr_process_tcp and edio24_svr_process_udp of src/libedio24.c at concrete inputs.
use libedio.Base.{arith, false, some}
use libedio.Samples.{blank, status_request, status_request-IsBytes, no_chance}
use libedio.Server.Tcp.{svr_process_tcp}
use libedio.Server.Tcp.Process

svr_process_tcp-Handled_example :
    Process.Handled status_request 7 0 blank 32
      (svr_process_tcp false (some status_request) 7 no_chance (Process.shown blank 32 0 0 0))
svr_process_tcp-Handled_example =
    Process.svr_process_tcp-Handled false status_request 7 no_chance blank 32 0 0 0
      status_request-IsBytes (omega arith) (omega arith) (omega arith)
