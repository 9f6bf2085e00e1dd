-- ===== src/Exchange/Connect.antt =====
-- The start of a session between utils/edio24cli.c and utils/edio24sim.c: the client's first message,
-- the simulator's answer, and what the client does then.
use libedio.Base.{ℕ, ◌≤◌, ◌≡◌, refl, arith, some, true, false, ◌||◌, if◌then◌else◌}
use libedio.Base.{Bool, Buffer, load_lem, pos}
use libedio.Simulator.State.{Device, Turn}
use libedio.Simulator.Process.{failing}
use libedio.Simulator.Udp.{on_udp_srv_read}
use libedio.Cli.Connect.{first_message, connects, stops, on_udp_cli_read}
use libedio.Exchange.Session.{arrived, create_opendev-on_udp_srv_read}

-- The client's reaction to an answer of two bytes that begins with 'C'.
react_opened :
    (b : Buffer)
    → 2 ≤ b.cap
    → b.byte 0 ≡ b'C'
    → (taken : Bool) → b.byte 1 ≡ (if taken then 1 else 0)
    → on_udp_cli_read (pos 2) b true ≡ some (if taken then stops else connects)
unfolding on_udp_cli_read
react_opened b room c true e = rw (load_lem b 0 (omega arith), load_lem b 1 room, c, e) refl
react_opened b room c false e = rw (load_lem b 0 (omega arith), load_lem b 1 room, c, e) refl

-- The client's message that opens a session brings back an answer of two bytes, on which the client
-- connects exactly where the device is not in use and the simulator does not fail by chance; else it
-- stops receiving.
pub first_message-connects :
    (t : Turn) (d : Device) (msg : Buffer) (device_cap client_cap : ℕ) (rest rest' : ℕ → ℕ)
    → 5 ≤ msg.cap
    → 5 ≤ device_cap
    → 2 ≤ client_cap
    → (m : ℕ → ℕ) × (first_message false msg ≡ some (pos 5, some (record msg { byte = m })))
      × (reply : ℕ → ℕ) × (on_udp_srv_read t d (pos 5) (some (arrived m 5 device_cap rest)) true
          ≡ some (some (record { size = 2; byte = reply })))
      × (on_udp_cli_read (pos 2) (arrived reply 2 client_cap rest') true
          ≡ some (if d.flg_used || failing t d then stops else connects))
unfolding first_message
first_message-connects t d msg device_cap client_cap rest rest' h k l =
    let (m, built, code, reply, e, c, status) =
      create_opendev-on_udp_srv_read t d msg 5 0 device_cap rest (omega arith) h (omega arith) k in
    (
      m,
      rw built refl,
      reply,
      e,
      react_opened (arrived reply 2 client_cap rest') l c (d.flg_used || failing t d) status,
    )
