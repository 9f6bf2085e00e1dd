-- ===== src/Simulator/Receive.antt =====
-- on_tcp_svr_read of utils/edio24sim.c: received bytes are pushed into the device's buffer, as many as
-- it has room for, and the packets in it processed, until all are pushed or none can be.
pub mod Laws
use libedio.Base.{ℕ, zero, suc, ◌+◌, ◌-◌, Option, none, some, List, [], ◌++◌, Bool, true, false}
use libedio.Base.{ltb, if◌then◌else◌, ◌>>=◌, Buffer, memmove, ℤ, pos, negsuc}
use libedio.Packet.Read.{offset}
use libedio.Simulator.State.{Device, Message, Turn, sizeof_buffer}
use libedio.Simulator.Process.{Run, finished, fault, no_fuel, svr_process_data}

-- What the handler leaves: the device, what was sent, and whether it closes the connection.
-- `undefined` is undefined behaviour or a failed assertion.
pub data Outcome : Type 0 where
  returned : Device → List Message → Bool → Outcome
  undefined out_of_fuel : Outcome

-- sz_copy: the bytes left, or the room left where that is less
abbrev pub sz_copy : ℕ → ℕ → ℕ
sz_copy left held = if ltb sizeof_buffer (left + held) then sizeof_buffer - held else left

-- the push of `n` bytes from `sz_processed` on, behind assert (sizeof (buffer) >= sz_data)
pub push : Buffer → ℕ → ℕ → Device → Option Device
push input sz_processed n d = if ltb sizeof_buffer d.sz_data then none else do
  buffer ← memmove d.buffer d.sz_data (offset input sz_processed) n
  some (record d { buffer = buffer; sz_data = d.sz_data + n })

-- while (sz_processed < nread). The device's own loop runs on fuel `deep`, and its turns at the
-- `k`-th call are `turns k`.
pub push_all : ℕ → ℕ → (ℕ → ℕ → Turn) → Buffer → ℕ → ℕ → Device → List Message → ℕ → Outcome
push_all zero deep turns input nread k d sent sz_processed = out_of_fuel
push_all (suc fuel) deep turns input nread k d sent sz_processed = elim (ltb sz_processed nread) [
  | false ↦ returned d sent false
  | true ↦ elim (ltb 0 (sz_copy (nread - sz_processed) d.sz_data)) [
    | false ↦ returned d sent true
    | true ↦ elim (push input sz_processed (sz_copy (nread - sz_processed) d.sz_data) d) [
      | none ↦ undefined
      | some d' ↦ elim (svr_process_data deep (turns k) d') [
        | fault ↦ undefined
        | no_fuel ↦ out_of_fuel
        | finished r ↦
            push_all fuel deep turns input nread (k + 1) r.device (sent ++ r.sent)
              (sz_processed + sz_copy (nread - sz_processed) d.sz_data)
      ]
    ]
  ]
]

-- `nread` is negative for an error or the end of the stream. The packets that the buffer still holds
-- are processed before anything is pushed.
unfoldable pub on_tcp_svr_read : ℕ → ℕ → (ℕ → ℕ → Turn) → Device → ℤ → Buffer → Outcome
on_tcp_svr_read fuel deep turns d (negsuc n) input = returned d [] true
on_tcp_svr_read fuel deep turns d (pos zero) input = returned d [] false
on_tcp_svr_read fuel deep turns d (pos (suc n)) input = elim (svr_process_data deep (turns 0) d) [
  | fault ↦ undefined
  | no_fuel ↦ out_of_fuel
  | finished r ↦ push_all fuel deep turns input (suc n) 1 r.device r.sent 0
]
