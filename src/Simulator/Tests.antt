-- ===== src/Simulator/Tests.antt =====
-- utils/edio24sim.c at concrete inputs.
use libedio.Base.{pos, negsuc, refl, arith, true, false}
use libedio.Samples.{status_request, status_request-IsBytes, no_chance}
use libedio.Simulator.State.{Device, IsDevice, Turn}
use libedio.Simulator.Process.{svr_process_data}
use libedio.Simulator.Process.{Round}
use libedio.Samples.{blank}
use libedio.Base.{[]}
use libedio.Simulator.Process.Loop.{Ended, svr_process_data-Ended}
use libedio.Simulator.Receive.{on_tcp_svr_read}
use libedio.Simulator.Receive.Laws.{Received, on_tcp_svr_read-Received}
use libedio.Simulator.State.{initial, on_tcp_svr_accept}
use libedio.Simulator.Session.{
  here, after, accepts, reads, Reachable-IsDevice, GoesOn, Reachable-GoesOn,
}

-- a device that has received a status request and four bytes of the next
abbrev device : Device
device = record {
  flg_used = true;
  flg_randfail = false;
  starttime = 0;
  timeout = 0;
  sz_data = 11;
  buffer = record { cap = 65; byte = status_request.byte };
}

abbrev turn : Turn
turn = record { coin = 0; chance = no_chance; fresh = λ _. 0 }

svr_process_data-Ended_example : Ended device [] (svr_process_data 1000000 (λ _. turn) device)
svr_process_data-Ended_example =
    svr_process_data-Ended 1000000 (λ _. turn) device
      (record { size = refl; held = omega arith; bytes = status_request-IsBytes }) (omega arith)

device-IsDevice : IsDevice device
device-IsDevice = record { size = refl; held = omega arith; bytes = status_request-IsBytes }

on_tcp_svr_read-Received_example :
    Received status_request 7 device
      (on_tcp_svr_read 100 10000000 (λ _ _. turn) device (pos 7) status_request)
on_tcp_svr_read-Received_example =
    on_tcp_svr_read-Received 100 10000000 (λ _ _. turn) device 6 status_request device-IsDevice
      status_request-IsBytes (omega arith) (omega arith) (omega arith)

-- the simulator after one connection
abbrev connected : Device
connected = (on_tcp_svr_accept false true (initial 0 0 false)).0

abbrev read :
    Received status_request 7 connected
      (on_tcp_svr_read 100 10000000 (λ _ _. turn) connected (pos 7) status_request)
unfolding on_tcp_svr_accept initial
read =
    on_tcp_svr_read-Received 100 10000000 (λ _ _. turn) connected 6 status_request
      (record { size = refl; held = omega arith; bytes = λ i. omega arith }) status_request-IsBytes
      (omega arith) (omega arith) (omega arith)

-- the simulator after one read
abbrev served : Device
served = read.device

-- It reads a packet, and comes to the end of the stream.
Reachable-IsDevice_example : IsDevice served
unfolding on_tcp_svr_read
Reachable-IsDevice_example = Reachable-IsDevice 0 0 false served (
    after
      (after (after here (accepts false true)) (
        reads 100 10000000 (pos 7) (λ _ _. turn) status_request served read.sent read.closed
          status_request-IsBytes (omega arith) (omega arith) (omega arith) read.returns))
      (reads 1 10000000 (negsuc 0) (λ _ _. turn) status_request served [] true
        status_request-IsBytes (omega arith) (omega arith) (omega arith) refl))

Reachable-GoesOn_example :
    GoesOn
      (initial 0 0 false)
      connected
      (negsuc 0)
      (on_tcp_svr_read 1 10000000 (λ _ _. turn) connected (negsuc 0) status_request)
Reachable-GoesOn_example =
    Reachable-GoesOn 0 0 false connected 1 10000000 (negsuc 0) (λ _ _. turn) status_request
      (after here (accepts false true)) status_request-IsBytes (omega arith) (omega arith)
      (omega arith)

abbrev first_round : Round
first_round = record { device = device; buf = blank; sent = [] }
