-- ===== src/Simulator/Udp/Laws.antt =====
-- What on_udp_srv_read of utils/edio24sim.c answers to the messages of a client.
use libedio.Base.{◌≢◌, ℕ, ◌≤◌, ◌≡◌, refl, arith, none, some, Bool, true, ◌||◌, if◌then◌else◌}
use libedio.Base.{Buffer, load_lem, store_lem, update, Bool-cases, inl, inr, pos}
use libedio.Server.Udp.Laws.{described, svr_process_udp-discover}
use libedio.Simulator.State.{Device, Turn}
use libedio.Simulator.Process.{failing}
use libedio.Simulator.Udp.{answer, discovery, session, dispatch, on_udp_srv_read}

discovery_lem :
    (t : Turn) (d : Device) (b : Buffer) (addressed : Bool)
    → 64 ≤ b.cap
    → b.byte 0 ≡ b'D'
    → discovery t d b addressed
      ≡ some
          (if failing t d then none else answer addressed 64 (record b { byte = described b.byte }))
unfolding discovery
discovery_lem t d b addressed h e = elim (Bool-cases (failing t d)) [
  | inl fails ↦
      rw (svr_process_udp-discover b b 1 64 0 (omega arith) (omega arith) (failing t d) e h, fails)
        refl
  | inr works ↦
      rw (svr_process_udp-discover b b 1 64 0 (omega arith) (omega arith) (failing t d) e h, works)
        refl
]

-- A discovery message is answered with the 64 bytes of the description, or not at all where the
-- simulator fails by chance; without an address nothing is sent.
pub on_udp_srv_read-discovery :
    (t : Turn) (d : Device) (b : Buffer) (addressed : Bool)
    → 64 ≤ b.cap
    → b.byte 0 ≡ b'D'
    → on_udp_srv_read t d (pos 1) (some b) addressed
      ≡ some
          (if failing t d then none else answer addressed 64 (record b { byte = described b.byte }))
unfolding on_udp_srv_read dispatch
on_udp_srv_read-discovery t d b addressed h e =
    rw (load_lem b 0 (omega arith), e) (discovery_lem t d b addressed h e)

session_lem :
    (t : Turn) (d : Device) (b : Buffer)
    → 5 ≤ b.cap
    → (m : ℕ → ℕ) × (session t d b true ≡ some (some (record { size = 2; byte = m })))
      × (m 0 ≡ b'C')
      × (m 1 ≡ (if d.flg_used || failing t d then 1 else 0))
unfolding session
session_lem t d b h =
    let m : ℕ → ℕ = update b.byte 0 b'C' in
    let marked : Buffer = record b { byte = m } in
    elim (Bool-cases d.flg_used) [
      | inl used ↦
          rw (used, store_lem b 0 b'C' (omega arith), store_lem marked 1 1 (omega arith))
            (update m 1 1, refl, refl, refl)
      | inr free ↦ elim (Bool-cases (failing t d)) [
        | inl fails ↦
            rw
              (
                free,
                fails,
                store_lem b 0 b'C' (omega arith),
                store_lem marked 1 0 (omega arith),
                store_lem (record b { byte = update m 1 0 }) 1 1 (omega arith),
              )
              (update (update m 1 0) 1 1, refl, refl, refl)
        | inr works ↦
            rw (free, works, store_lem b 0 b'C' (omega arith), store_lem marked 1 0 (omega arith))
              (update m 1 0, refl, refl, refl)
      ]
    ]

-- A session message is answered with 'C' and one more byte: 1 where the device is in use or the
-- simulator fails by chance, else 0.
pub on_udp_srv_read-session :
    (t : Turn) (d : Device) (b : Buffer)
    → 5 ≤ b.cap
    → b.byte 0 ≡ b'C'
    → (m : ℕ → ℕ) × (on_udp_srv_read t d (pos 5) (some b) true
        ≡ some (some (record { size = 2; byte = m })))
      × (m 0 ≡ b'C')
      × (m 1 ≡ (if d.flg_used || failing t d then 1 else 0))
unfolding on_udp_srv_read dispatch
on_udp_srv_read-session t d b h e =
    let reply : (m : ℕ → ℕ) × (session t d b true ≡ some (some (record { size = 2; byte = m })))
        × (m 0 ≡ b'C')
        × (m 1 ≡ (if d.flg_used || failing t d then 1 else 0)) =
      session_lem t d b h in
    (reply.0, rw (load_lem b 0 (omega arith), e) reply.1, reply.2, reply.3)

-- Only those two messages are answered.
pub on_udp_srv_read-ignored :
    (t : Turn) (d : Device) (nread : ℕ) (b : Buffer) (addressed : Bool)
    → 1 ≤ b.cap
    → ((nread ≡ 1) → b.byte 0 ≢ b'D')
    → ((nread ≡ 5) → b.byte 0 ≢ b'C')
    → on_udp_srv_read t d (pos nread) (some b) addressed ≡ some none
unfolding on_udp_srv_read dispatch
on_udp_srv_read-ignored t d nread b addressed h no_d no_c = ground (arith, load_lem b 0 h)
