-- ===== src/Simulator/Process.antt =====
-- edio24svr_process_data of utils/edio24sim.c: the packets in the buffer, one round for each.
pub mod Laws
pub mod Loop
use libedio.Base.{
  ℕ, zero, suc, ◌+◌, ◌-◌, ◌%◌, Option, none, some, List, [], ◌∷◌, ◌++◌, Bool, true, false,
}
use libedio.Base.{◌&&◌, ltb, if◌then◌else◌, ◌>>=◌, Buffer, memmove, ℤ, pos, negsuc}
use mathlib.Core.Option
use libedio.Inbox.{shift}
use libedio.Server.Tcp.{Pointers, svr_process_tcp}
use libedio.Simulator.State.{Device, Message, Turn, realloc_buffer}

-- The state of the loop: the device, the buffer for replies, and what was sent.
pub record Round : Type 0 where
  pub device : Device
  pub buf : Buffer
  pub sent : List Message

-- How a round ends: by `break`, or with another round.
pub data After : Type 0 where
  stop again : Round → After

-- How the loop ends. `fault` is undefined behaviour or a failed assertion.
pub data Run : Type 0 where
  finished : Round → Run
  fault no_fuel : Run

-- Remove the head of the data, behind assert (sz_processed <= ped->sz_data).
pub take_processed : ℕ → Device → Option Device
take_processed zero d = some d
take_processed (suc n) d = if ltb d.sz_data (suc n) then none else do
  buffer ← shift d.buffer (suc n) (d.sz_data - suc n)
  some (record d { buffer = buffer; sz_data = d.sz_data - suc n })

-- Send `sz_out` bytes of `buffer_out` where there are any: a copy goes to libuv.
pub send : (ℕ → ℕ) → ℕ → Buffer → List Message → Option (List Message)
send fresh zero out sent = some sent
send fresh (suc n) out sent = do
  copy ← memmove (record { cap = suc n; byte = fresh }) 0 out (suc n)
  some (sent ++ (record { size = suc n; byte = copy.byte } ∷ []))

-- the branches over `ret` at the end of a round
pub branch : ℤ → Round → After
branch (negsuc n) r = stop r
branch (pos zero) r = again r
branch (pos (suc zero)) r = again r
branch (pos (suc (suc zero))) r = stop r
branch (pos (suc (suc (suc n)))) r = again r

-- the reply, and a longer buffer where one is asked for; `out` is the buffer as the call left it
pub respond : Turn → Device → List Message → ℤ → Buffer → ℕ → ℕ → Option After
unfolding send branch
respond t device sent ret out sz_out sz_needed_out = do
  sent' ← send t.fresh sz_out out sent
  let buf =
      if ltb 0 sz_needed_out then realloc_buffer t.fresh (out.cap + sz_needed_out) out else out
  some (branch ret (record { device = device; buf = buf; sent = sent' }))

-- The rest of a round, after edio24_svr_process_tcp returned `ret`.
pub finish_round : Turn → Round → ℤ → Buffer → ℕ → ℕ → ℕ → ℕ → Option After
unfolding take_processed respond
finish_round t r ret out sz_out sz_processed sz_needed_in sz_needed_out =
    take_processed sz_processed r.device >>= λ device.
    if ltb 0 sz_needed_in
    then some (stop (record { device = device; buf = out; sent = r.sent }))
    else respond t device r.sent ret out sz_out sz_needed_out

-- a failure by chance, where the simulator was started to make such
abbrev pub failing : Turn → Device → Bool
failing t d = d.flg_randfail && ltb (t.coin % 100) 50

-- One round. The pointers are those of local variables, so they still show something afterwards.
pub round : Turn → Round → Option After
unfolding finish_round
round t r = do
  (ret, p) ←
      svr_process_tcp (failing t r.device) (some r.device.buffer) r.device.sz_data t.chance
        (record {
          buffer_out = some r.buf;
          sz_out = some r.buf.cap;
          sz_processed = some 0;
          sz_needed_in = some 0;
          sz_needed_out = some 0;
        })
  finish_round t r ret (Option.get_or p.buffer_out r.buf) (Option.get_or p.sz_out 0)
      (Option.get_or p.sz_processed 0) (Option.get_or p.sz_needed_in 0)
      (Option.get_or p.sz_needed_out 0)

-- while (1), from round `k` on
pub rounds : ℕ → (ℕ → Turn) → ℕ → Round → Run
rounds zero turns k r = no_fuel
rounds (suc fuel) turns k r = elim (round (turns k) r) [
  | none ↦ fault
  | some (stop r') ↦ finished r'
  | some (again r') ↦ rounds fuel turns (k + 1) r'
]

-- alloc_buffer (NULL, 7+30, &buf), and the loop; the first turn also fills the new buffer.
unfoldable pub svr_process_data : ℕ → (ℕ → Turn) → Device → Run
unfolding rounds
svr_process_data fuel turns d =
    rounds fuel turns 0
      (record { device = d; buf = record { cap = 7 + 30; byte = (turns 0).fresh }; sent = [] })
