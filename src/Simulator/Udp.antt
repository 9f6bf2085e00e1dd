-- ===== src/Simulator/Udp.antt =====
-- on_udp_srv_read of utils/edio24sim.c: the answers to the discovery and to the open message.
pub mod Laws
use libedio.Base.{
  ℕ, zero, suc, Option, none, some, Bool, true, false, ◌==◌, ◌&&◌, ltb, if◌then◌else◌, ◌>>=◌,
}
use libedio.Base.{Buffer, load, store, ℤ, pos, negsuc}
use mathlib.Core.Option
use libedio.Server.Udp.{Datagram, svr_process_udp}
use libedio.Simulator.State.{Device, Message, Turn}
use libedio.Simulator.Process.{failing}

-- What is sent where an address is known; `none` inside for nothing.
abbrev pub answer : Bool → ℕ → Buffer → Option Message
answer addressed size b = if addressed then some (record { size = size; byte = b.byte }) else none

-- the discovery message: the reply is written over it, and 64 bytes of the buffer are sent
pub discovery : Turn → Device → Buffer → Bool → Option (Option Message)
discovery t d b addressed = do
  (ret, p) ←
      svr_process_udp (failing t d) (some b) 1
        (record { buffer_out = some b; sz_out = some 64; sz_needed_out = some 0 })
  some (
      if ltb 0 (Option.get_or p.sz_out 0)
      then answer addressed 64 (Option.get_or p.buffer_out b)
      else none)

-- the message that opens a session: 1 where the device is in use, or by chance
pub session : Turn → Device → Buffer → Bool → Option (Option Message)
session t d b addressed = do
  b₁ ← store b 0 b'C'
  b₂ ←
      (if d.flg_used
        then store b₁ 1 1
        else do b₃ ← store b₁ 1 0; (if failing t d then store b₃ 1 1 else some b₃))
  some (answer addressed 2 b₂)

-- a read of the first byte only where it is asked for
pub first_is : ℕ → Bool → Buffer → Option Bool
first_is c false b = some false
first_is c true b = load b 0 >>= λ v. some (v == c)

pub dispatch : Turn → Device → ℕ → Buffer → Bool → Option (Option Message)
unfolding first_is discovery session
dispatch t d nread b addressed = do
  is_discovery ← first_is b'D' (nread == 1) b
  is_session ← first_is b'C' (if is_discovery then false else nread == 5) b
  (if is_discovery
      then discovery t d b addressed
      else if is_session
      then session t d b addressed
      else some none)

-- The result is `none` for undefined behaviour, else what is sent. `base` is buf->base, and
-- `addressed` tells whether `addr` is no NULL.
unfoldable pub on_udp_srv_read : Turn → Device → ℤ → Option Buffer → Bool → Option (Option Message)
unfolding dispatch
on_udp_srv_read t d (negsuc n) base addressed = some none
on_udp_srv_read t d (pos nread) none addressed = some none
on_udp_srv_read t d (pos nread) (some b) addressed = dispatch t d nread b addressed
