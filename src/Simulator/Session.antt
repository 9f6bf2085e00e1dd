-- ===== src/Simulator/Session.antt =====
-- The life of the device of utils/edio24sim.c as steps: each is one call that libuv makes.
use libedio.Base.{
  ◌⊎◌, ℕ, zero, suc, ◌+◌, ◌*◌, ◌≤◌, ◌<◌, ◌≡◌, refl, sym, arith, List, [], Bool, true, false,
  Bool-cases, inl, inr,
}
use libedio.Base.{Buffer, IsBytes, ℤ, pos, negsuc, is_negative}
use mathlib.Core.Path.{subst}
use libedio.Simulator.State.{
  Device, IsDevice, Message, Turn, sizeof_buffer, initial, on_tcp_svr_accept, on_tcp_svr_close,
}
use libedio.Simulator.Receive.{Outcome, returned, undefined, out_of_fuel, on_tcp_svr_read}
use libedio.Simulator.Receive.Laws.{Received, on_tcp_svr_read-Received}

-- the bytes that a read brings: none at the end of the stream and at an error, where `nread` is
-- negative
abbrev pub size_of : ℤ → ℕ
size_of (pos n) = n
size_of (negsuc n) = 0

-- One call of a handler that changes the device: a connection comes, is closed, or is read with any
-- `nread`, with fuel for the loops. The timer and the datagrams change nothing of the device.
pub data Step (d : Device) : Device → Type 0 where
  accepts : (failed accepted : Bool) → Step d ((on_tcp_svr_accept failed accepted d).0)
  closes : Step d (on_tcp_svr_close d)
  reads :
      (fuel deep : ℕ) (nread : ℤ) (turns : ℕ → ℕ → Turn) (input : Buffer) (d' : Device)
      (sent : List Message) (closed : Bool)
      → IsBytes input.byte
      → size_of nread ≤ input.cap
      → size_of nread < fuel
      → sizeof_buffer * 70000 + 65543 < deep
      → on_tcp_svr_read fuel deep turns d nread input ≡ returned d' sent closed
      → Step d d'

-- A device that comes from another by any number of calls.
pub data Reachable (d : Device) : Device → Type 0 where
  here : Reachable d d
  after : {d' d'' : Device} → Reachable d d' → Step d' d'' → Reachable d d''

pub initial-IsDevice :
    (starttime timeout : ℕ) (flg_randfail : Bool)
    → IsDevice (initial starttime timeout flg_randfail)
unfolding initial
initial-IsDevice starttime timeout flg_randfail = record {
  size = refl;
  held = omega arith;
  bytes = λ i. omega arith;
}

on_tcp_svr_accept-IsDevice :
    (failed accepted : Bool) (d : Device)
    → IsDevice d
    → IsDevice ((on_tcp_svr_accept failed accepted d).0)
unfolding on_tcp_svr_accept
on_tcp_svr_accept-IsDevice true accepted d v = v
on_tcp_svr_accept-IsDevice false accepted d v = elim (Bool-cases d.flg_used) [
  | inl used ↦ rw used (record { size = v.size; held = v.held; bytes = v.bytes })
  | inr free ↦ elim (Bool-cases accepted) [
    | inl taken ↦ rw (free, taken) (record { size = v.size; held = v.held; bytes = v.bytes })
    | inr lost ↦ rw (free, lost) (record { size = v.size; held = v.held; bytes = v.bytes })
  ]
]

on_tcp_svr_close-IsDevice : (d : Device) → IsDevice d → IsDevice (on_tcp_svr_close d)
unfolding on_tcp_svr_close
on_tcp_svr_close-IsDevice d v = record { size = v.size; held = v.held; bytes = v.bytes }

-- the device of an outcome, and `d` where there is none
abbrev device_of : Device → Outcome → Device
device_of d (returned d' sent closed) = d'
device_of d undefined = d
device_of d out_of_fuel = d

read-IsDevice :
    (fuel deep : ℕ) (nread : ℤ) (turns : ℕ → ℕ → Turn) (d : Device) (input : Buffer)
    → IsDevice d
    → IsBytes input.byte
    → size_of nread ≤ input.cap
    → size_of nread < fuel
    → sizeof_buffer * 70000 + 65543 < deep
    → IsDevice (device_of d (on_tcp_svr_read fuel deep turns d nread input))
unfolding on_tcp_svr_read
read-IsDevice fuel deep (negsuc n) turns d input v bytes room h enough = v
read-IsDevice fuel deep (pos zero) turns d input v bytes room h enough = v
read-IsDevice fuel deep (pos (suc n)) turns d input v bytes room h enough =
    let done : Received input (suc n) d (on_tcp_svr_read fuel deep turns d (pos (suc n)) input) =
      on_tcp_svr_read-Received fuel deep turns d n input v bytes room h enough in
    subst (λ o. IsDevice (device_of d o)) (sym done.returns) done.valid

read_returns :
    (fuel deep : ℕ) (nread : ℤ) (turns : ℕ → ℕ → Turn) (d : Device) (input : Buffer)
    → IsDevice d
    → IsBytes input.byte
    → size_of nread ≤ input.cap
    → size_of nread < fuel
    → sizeof_buffer * 70000 + 65543 < deep
    → (d' : Device) × (sent : List Message) × (closed : Bool) × (on_tcp_svr_read fuel deep turns d
          nread input
        ≡ returned d' sent closed)
      × (size_of nread ≡ 0 → (d' ≡ d) × (sent ≡ []) × (closed ≡ is_negative nread))
unfolding on_tcp_svr_read
read_returns fuel deep (negsuc n) turns d input v bytes room h enough =
    (d, [], true, refl, λ none. (refl, refl, refl))
read_returns fuel deep (pos zero) turns d input v bytes room h enough =
    (d, [], false, refl, λ none. (refl, refl, refl))
read_returns fuel deep (pos (suc n)) turns d input v bytes room h enough =
    let done = on_tcp_svr_read-Received fuel deep turns d n input v bytes room h enough in
    (done.device, done.sent, done.closed, done.returns, λ none. absurd (omega arith))

Step-IsDevice : (d d' : Device) → IsDevice d → Step d d' → IsDevice d'
Step-IsDevice d _ v (accepts failed accepted) = on_tcp_svr_accept-IsDevice failed accepted d v
Step-IsDevice d _ v closes = on_tcp_svr_close-IsDevice d v
Step-IsDevice d d' v (reads fuel deep nread turns input _ sent closed bytes room h enough e) =
    subst (λ o. IsDevice (device_of d o)) e
      (read-IsDevice fuel deep nread turns d input v bytes room h enough)

-- In whatever order libuv calls the handlers that accept, read and close connections, from the
-- start of the simulator on, reads at the end of the stream or at an error included, the bytes that
-- the device holds fit its buffer.
pub Reachable-IsDevice :
    (starttime timeout : ℕ) (flg_randfail : Bool) (d : Device)
    → Reachable (initial starttime timeout flg_randfail) d
    → IsDevice d
Reachable-IsDevice starttime timeout flg_randfail _ here =
    initial-IsDevice starttime timeout flg_randfail
Reachable-IsDevice starttime timeout flg_randfail d (after {d' = d'} path step) =
    Step-IsDevice d' d (Reachable-IsDevice starttime timeout flg_randfail d' path) step

-- The outcome of a read of `d`: one that returns, with a device that is reachable from `start` too. At
-- the end of the stream and at an error the connection is closed, and nothing else is done.
pub record GoesOn (start d : Device) (nread : ℤ) (result : Outcome) : Type 0 where
  pub device : Device
  pub sent : List Message
  pub closed : Bool
  pub returns : result ≡ returned device sent closed
  pub onward : Reachable start device
  pub ends : size_of nread ≡ 0 → (device ≡ d) × (sent ≡ []) × (closed ≡ is_negative nread)

-- From the start of the simulator on, a read with any result, the end of the stream and an error
-- included, of bytes that fit the buffer of the read, and with enough fuel, returns: it comes to no
-- undefined behaviour, no failed assertion and no endless loop, and leaves a device that is
-- reachable. Where it brings no bytes, the device stays as it is, nothing is sent, and the
-- connection is closed exactly at the end of the stream or an error.
pub Reachable-GoesOn :
    (starttime timeout : ℕ) (flg_randfail : Bool) (d : Device) (fuel deep : ℕ) (nread : ℤ)
    (turns : ℕ → ℕ → Turn) (input : Buffer)
    → Reachable (initial starttime timeout flg_randfail) d
    → IsBytes input.byte
    → size_of nread ≤ input.cap
    → size_of nread < fuel
    → sizeof_buffer * 70000 + 65543 < deep
    → GoesOn
        (initial starttime timeout flg_randfail)
        d
        nread
        (on_tcp_svr_read fuel deep turns d nread input)
unfolding on_tcp_svr_read
Reachable-GoesOn starttime timeout flg_randfail d fuel deep nread turns input path bytes room h
      enough =
    let v : IsDevice d = Reachable-IsDevice starttime timeout flg_randfail d path in
    let r = read_returns fuel deep nread turns d input v bytes room h enough in
    record {
      device = r.0;
      sent = r.1;
      closed = r.2;
      returns = r.3;
      onward = after path (reads fuel deep nread turns input r.0 r.1 r.2 bytes room h enough r.3);
      ends = r.4;
    }

-- While the device is in use, a further connection changes nothing and is not read from. Where it is
-- free, a connection is read from exactly if the device is in use afterwards.
pub on_tcp_svr_accept_lem :
    (failed accepted : Bool) (d : Device)
    → ((d.flg_used ≡ true) × (on_tcp_svr_accept failed accepted d ≡ (d, false)))
      ⊎ ((d.flg_used ≡ false)
          × ((on_tcp_svr_accept failed accepted d).1
              ≡ (on_tcp_svr_accept failed accepted d).0.flg_used))
unfolding on_tcp_svr_accept
on_tcp_svr_accept_lem failed accepted d = ground arith
