-- ===== src/Simulator/Process/Laws.antt =====
-- One round of edio24svr_process_data of utils/edio24sim.c: what it can come to.
use libedio.Base.{ℕ, zero, suc, ◌+◌, ◌-◌, ◌^◌, ◌≤◌, ◌<◌, ◌≡◌, refl, ◌⊎◌, arith, List, [], ◌∷◌, ◌++◌}
use libedio.Base.{ap, true, Option, some, false, lt→ltb, le→ltb, inl, inr}
use libedio.Base.{Buffer, copied, memmove_lem}
use mathlib.Core.Path.{subst}
use libedio.Inbox.{shift_lem, shifted_bytes, shifted_bytes-IsBytes}
use libedio.Packet.Verify.Laws.{count_of, IsWhole}
use libedio.Packet.Format.{IsPacket, agree-IsPacket}
use libedio.Server.Tcp.{
  case_of, Case, plain, pin_write, led, pins, counter, status_word, network, boot, ranged,
  unsupported,
}
use libedio.Server.Tcp.Laws.{is_supported, is_bare, answer_to, Content, complete, headless}
use libedio.Server.Tcp.Process.{
  AsAsked, wants_header, wants_data, refused, damaged, wants_room, served, svr_process_tcp-Handled,
}
use libedio.Simulator.State.{Device, IsDevice, Message, Turn, realloc_buffer}
use libedio.Simulator.Process.{Round, After, stop, again, take_processed, send, failing, round}

-- The device with `rest` bytes left after the first `n` were taken.
abbrev pub shifted : ℕ → ℕ → Device → Device
shifted rest n d = record d {
  buffer = record d.buffer { byte = shifted_bytes d.buffer.byte n rest };
  sz_data = rest;
}

pub take_processed_lem :
    (n : ℕ) (d : Device)
    → IsDevice d
    → 1 ≤ n
    → n ≤ d.sz_data
    → take_processed n d ≡ some (shifted (d.sz_data - n) n d)
unfolding take_processed
take_processed_lem zero d v h k = absurd (omega arith)
take_processed_lem (suc n) d v h k =
    rw (le→ltb d.sz_data (suc n) k, shift_lem d.buffer (suc n) (d.sz_data - suc n) (omega arith))

pub shifted-IsDevice :
    (rest n : ℕ) (d : Device) → IsDevice d → rest ≤ d.sz_data → IsDevice (shifted rest n d)
shifted-IsDevice rest n d v h = record {
  size = v.size;
  held = omega arith;
  bytes = shifted_bytes-IsBytes d.buffer.byte n rest v.bytes;
}

-- the message that is sent from `out`
abbrev pub message : (ℕ → ℕ) → ℕ → Buffer → Message
message fresh sz_out out = record { size = sz_out; byte = copied fresh 0 out.byte sz_out }

send_lem :
    (fresh : ℕ → ℕ) (sz_out : ℕ) (out : Buffer) (sent : List Message)
    → 1 ≤ sz_out
    → sz_out ≤ out.cap
    → send fresh sz_out out sent ≡ some (sent ++ (message fresh sz_out out ∷ []))
unfolding send
send_lem fresh zero out sent h k = absurd (omega arith)
send_lem fresh (suc n) out sent h k =
    rw (memmove_lem (record { cap = suc n; byte = fresh }) 0 out (suc n) (omega arith) k)

realloc_buffer-cap :
    (fresh : ℕ → ℕ) (more : ℕ) (buf : Buffer)
    → 0 < more
    → (realloc_buffer fresh (buf.cap + more) buf).cap ≡ buf.cap + more
unfolding realloc_buffer
realloc_buffer-cap fresh more buf h = rw (lt→ltb buf.cap (buf.cap + more) (omega arith))

realloc_buffer-lt :
    (fresh : ℕ → ℕ) (more : ℕ) (buf : Buffer)
    → 0 < more
    → buf.cap < (realloc_buffer fresh (buf.cap + more) buf).cap
realloc_buffer-lt fresh more buf h = omega (arith, realloc_buffer-cap fresh more buf h)

-- What the device cannot serve: the data at the head of the buffer are no whole packet, or one of a
-- command that it does not know.
abbrev pub Blocked : Device → Type 0
Blocked d = (¬ IsWhole d.buffer.byte d.sz_data) ⊎ (is_supported (case_of (d.buffer.byte 1)) ≡ false)

-- What is sent for the packet at the head of `n` bytes: for a write a packet without data, with the
-- command of a reply and the frame of the request.
pub record IsAnswer (m : ℕ → ℕ) (n : ℕ) (reply : Message) : Type 0 where
  pub known : is_supported (case_of (m 1)) ≡ true
  pub bare :
      is_bare (case_of (m 1)) ≡ true
      → (reply.size ≡ 7)
        × ((status : ℕ) × (status < 256) × IsPacket reply.byte (m 1 + 128) (m 2) status 0)

-- What a round can come to. A round that stops keeps the data; `answered` takes one whole packet and
-- sends one message; `grown` makes the buffer for replies longer, and keeps all else.
pub data Advance (t : Turn) (r : Round) (result : Option After) : Type 0 where
  waiting :
      (r' : Round)
      → result ≡ some (stop r')
      → r'.device ≡ r.device
      → r'.sent ≡ r.sent
      → Blocked r.device
      → Advance t r result
  rejected :
      (r' : Round)
      → result ≡ some (stop r')
      → r'.device ≡ r.device
      → r'.sent ≡ r.sent ++ (message t.fresh r.buf.cap r.buf ∷ [])
      → Blocked r.device
      → 7 + count_of r.device.buffer.byte ≤ r.device.sz_data
      → Advance t r result
  answered :
      (r' : Round) (reply : Message)
      → result ≡ some (again r')
      → IsWhole r.device.buffer.byte r.device.sz_data
      → r'.device
        ≡ shifted
            (r.device.sz_data - (7 + count_of r.device.buffer.byte))
            (7 + count_of r.device.buffer.byte)
            r.device
      → r'.sent ≡ r.sent ++ (reply ∷ [])
      → r'.buf.cap ≡ r.buf.cap
      → IsAnswer r.device.buffer.byte r.device.sz_data reply
      → Advance t r result
  grown :
      (r' : Round)
      → result ≡ some (again r')
      → IsWhole r.device.buffer.byte r.device.sz_data
      → r'.device ≡ r.device
      → r'.sent ≡ r.sent
      → r.buf.cap < r'.buf.cap
      → r'.buf.cap < 7 + 2 ^ 16
      → Advance t r result

bare-len :
    (k : Case) (m : ℕ → ℕ) (status : ℕ) → is_bare k ≡ true → (answer_to k m status).len_data ≡ 0
bare-len plain m status h = refl
bare-len pin_write m status h = refl
bare-len led m status h = refl
bare-len pins m status h = cc
bare-len counter m status h = cc
bare-len status_word m status h = cc
bare-len network m status h = cc
bare-len boot m status h = cc
bare-len (ranged max_address) m status h = cc
bare-len unsupported m status h = cc

served-IsAnswer :
    (m : ℕ → ℕ) (n before status len : ℕ) (fresh : ℕ → ℕ) (out : Buffer) (m' : ℕ → ℕ)
    → status < 256
    → AsAsked m n before status len
    → is_supported (case_of (m 1)) ≡ true
    → Content m' out.byte (m 1 + 128) (m 2) status len
    → IsAnswer m n (message fresh (7 + len) (record out { byte = m' }))
served-IsAnswer m n before status len fresh out m' small asked is_known content = record {
  known = is_known;
  bare = λ bare.
      let none_asked : len ≡ 0 = elim asked [
        | inl few ↦ few.1 bare
        | inr both ↦ omega (arith, both.1, bare-len (case_of (m 1)) m before bare)
      ] in
      elim content [
        | complete few packet ↦ (
          omega arith,
          (
            status,
            small,
            subst (λ (k : ℕ). IsPacket (copied fresh 0 m' (7 + len)) (m 1 + 128) (m 2) status k)
                none_asked
                (agree-IsPacket m' (copied fresh 0 m' (7 + len)) (m 1 + 128) (m 2) status len
                  (λ i h. let e : i - 0 ≡ i = omega arith in ground (arith, ap m' e)) packet),
          ),
        )
        | headless many _ _ ↦ absurd (omega arith)
      ];
}

module _ (t : Turn) (r : Round) (v : IsDevice r.device) (some_room : 1 ≤ r.buf.cap) where
  -- One round on a device whose received bytes fit its buffer ends in one of the ways of `Advance`,
  -- whatever was received and whatever chance brings: without a failed assertion, it takes one whole
  -- packet and sends one message, makes the buffer for replies longer, or stops with the data kept.
  pub round-Advance : Advance t r (round t r)
  unfolding round
  round-Advance =
      elim (svr_process_tcp-Handled (failing t r.device) r.device.buffer r.device.sz_data t.chance
        r.buf r.buf.cap 0 0 0 v.bytes (omega arith) (omega arith) (omega arith)) [
          | wants_header short e ↦
              rw (e, lt→ltb 0 (7 - r.device.sz_data) (omega arith))
                (waiting _ refl refl refl (inl (λ w. omega (arith, w.0))))
          | wants_data least short e ↦
              rw (e, lt→ltb 0 (7 + count_of r.device.buffer.byte - r.device.sz_data) (omega arith))
                (waiting _ refl refl refl (inl (λ w. omega (arith, w.0))))
          | refused fits unknown e ↦
              rw (e, send_lem t.fresh r.buf.cap r.buf r.sent some_room (omega arith))
                (rejected _ refl refl refl (inr unknown) fits)
          | damaged fits broken k e ↦
              rw (e, send_lem t.fresh r.buf.cap r.buf r.sent some_room (omega arith))
                (rejected _ refl refl refl (inl broken) fits)
          | wants_room status len w asked k few short e ↦
              let more : 0 < 7 + len - r.buf.cap = omega arith in
              rw (e, lt→ltb 0 (7 + len - r.buf.cap) more)
                (grown _ refl w refl refl
                  (realloc_buffer-lt t.fresh (7 + len - r.buf.cap) r.buf more)
                  (omega (arith, realloc_buffer-cap t.fresh (7 + len - r.buf.cap) r.buf more)))
          | served status len w asked k fits st reply ↦
              rw
                (
                  reply.returns,
                  take_processed_lem (7 + count_of r.device.buffer.byte) r.device v (omega arith)
                      w.0,
                  send_lem t.fresh (7 + len) (record r.buf { byte = reply.m }) r.sent (omega arith)
                      fits,
                )
                (answered _ (message t.fresh (7 + len) (record r.buf { byte = reply.m })) refl w
                  refl refl refl
                  (served-IsAnswer r.device.buffer.byte r.device.sz_data _ status len t.fresh r.buf
                    reply.m st asked k reply.content))
        ]
