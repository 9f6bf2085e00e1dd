-- ===== src/Exchange/Session.antt =====
-- Discovery and the opening of a session: what the client of src/libedio24.c sends, what the handler
-- on_udp_srv_read of utils/edio24sim.c answers, and what the client makes of it. A datagram arrives in
-- a buffer of its own, in its first bytes.
use libedio.Base.{
  ℕ, ◌+◌, ◌*◌, ◌/◌, ◌%◌, ◌^◌, ◌≤◌, ◌<◌, ◌≡◌, refl, arith, some, List, [], ◌∷◌, true, false, ◌||◌,
  if◌then◌else◌,
}
use libedio.Base.{Buffer, update, store_lem, store_all_lem, write_all, ltb, le→ltb, pos}
use libedio.Packet.Create.{create_opendev, create_discoverydev}
use libedio.Server.Udp.Laws.{described}
use libedio.Client.Udp.{cli_verify_udp}
use libedio.Client.Udp.Laws.{cli_verify_udp_lem}
use libedio.Simulator.State.{Device, Turn}
use libedio.Simulator.Process.{failing}
use libedio.Simulator.Udp.{on_udp_srv_read}
use libedio.Simulator.Udp.Laws.{on_udp_srv_read-discovery, on_udp_srv_read-session}

-- A buffer of `cap` bytes into which `size` bytes arrived, with `rest` behind them.
abbrev pub arrived : (ℕ → ℕ) → ℕ → ℕ → (ℕ → ℕ) → Buffer
arrived m size cap rest = record { cap = cap; byte = λ i. if ltb i size then m i else rest i }

-- Where the simulator does not fail by chance, the discovery message that the client builds brings
-- back 64 bytes that the client accepts, whatever the buffers hold behind what arrives in them.
pub discovery-cli_verify_udp :
    (t : Turn) (d : Device) (b : Buffer) (sz_buf device_cap client_cap : ℕ) (rest rest' : ℕ → ℕ)
    → 1 ≤ sz_buf
    → sz_buf ≤ b.cap
    → 64 ≤ device_cap
    → 64 ≤ client_cap
    → failing t d ≡ false
    → (m : ℕ → ℕ) × (create_discoverydev (some b) sz_buf
        ≡ some (pos 1, some (record b { byte = m })))
      × (reply : ℕ → ℕ) × (on_udp_srv_read t d (pos 1) (some (arrived m 1 device_cap rest)) true
          ≡ some (some (record { size = 64; byte = reply })))
      × (cli_verify_udp (some (arrived reply 64 client_cap rest')) 64 ≡ some (pos 0))
unfolding create_discoverydev
discovery-cli_verify_udp t d b sz_buf device_cap client_cap rest rest' h k l room works =
    let m : ℕ → ℕ = update b.byte 0 b'D' in
    let device_buf : Buffer = arrived m 1 device_cap rest in
    (
      m,
      rw (le→ltb sz_buf 1 h, store_lem b 0 b'D' (omega arith)) refl,
      described device_buf.byte,
      rw (on_udp_srv_read-discovery t d device_buf true l refl, works) refl,
      cli_verify_udp_lem (arrived (described device_buf.byte) 64 client_cap rest') 64 25
          (omega arith) room refl (omega arith) (omega arith) refl,
    )

-- the bytes of the open message
abbrev opening : ℕ → List (ℕ × ℕ)
opening code =
    (0, b'C')
    ∷ (1, code % 2 ^ 8)
    ∷ (2, code / 2 ^ 8 % 2 ^ 8)
    ∷ (3, code / 2 ^ 16 % 2 ^ 8)
    ∷ (4, code / 2 ^ 24 % 2 ^ 8)
    ∷ []

-- The message that the client builds to open a session holds the connect code in its last four bytes,
-- lowest first. The simulator answers it with two bytes: 'C', and 1 where the device is in use or the
-- simulator fails by chance, else 0.
pub create_opendev-on_udp_srv_read :
    (t : Turn) (d : Device) (b : Buffer) (sz_buf connect_code device_cap : ℕ) (rest : ℕ → ℕ)
    → 5 ≤ sz_buf
    → sz_buf ≤ b.cap
    → connect_code < 2 ^ 32
    → 5 ≤ device_cap
    → (m : ℕ → ℕ) × (create_opendev (some b) sz_buf connect_code
        ≡ some (pos 5, some (record b { byte = m })))
      × (m 1 + m 2 * 2 ^ 8 + m 3 * 2 ^ 16 + m 4 * 2 ^ 24 ≡ connect_code)
      × (reply : ℕ → ℕ) × (on_udp_srv_read t d (pos 5) (some (arrived m 5 device_cap rest)) true
          ≡ some (some (record { size = 2; byte = reply })))
      × (reply 0 ≡ b'C')
      × (reply 1 ≡ (if d.flg_used || failing t d then 1 else 0))
unfolding create_opendev
create_opendev-on_udp_srv_read t d b sz_buf code device_cap rest h k small l =
    let device_buf : Buffer = arrived (write_all b.byte (opening code)) 5 device_cap rest in
    let answered : (reply : ℕ → ℕ) × (on_udp_srv_read t d (pos 5) (some device_buf) true
          ≡ some (some (record { size = 2; byte = reply })))
        × (reply 0 ≡ b'C')
        × (reply 1 ≡ (if d.flg_used || failing t d then 1 else 0)) =
      on_udp_srv_read-session t d device_buf l refl in
    (
      write_all b.byte (opening code),
      rw (le→ltb sz_buf 5 h, store_all_lem b (opening code) (omega arith)) refl,
      omega arith,
      answered.0,
      answered.1,
      answered.2,
      answered.3,
    )
