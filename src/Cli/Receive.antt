-- ===== src/Cli/Receive.antt =====
-- on_tcp_cli_read of utils/edio24cli.c: received bytes are pushed into the client's buffer, as many as
-- it has room for, and the replies in it counted, until all are pushed or none can be.
pub mod Laws
use libedio.Base.{ℕ, zero, suc, ◌+◌, ◌-◌, Option, none, some, Bool, true, false, ◌||◌, not}
use libedio.Base.{ltb, if◌then◌else◌, ◌>>=◌, Buffer, memmove, ℤ, pos, negsuc}
use libedio.Packet.Read.{offset}
use libedio.Cli.State.{Console, sizeof_buffer}
use libedio.Cli.Process.{Run, finished, fault, no_fuel, process_data}

-- What the push loop leaves: the client, and the number of bytes pushed. `undefined` is undefined
-- behaviour or a failed assertion.
pub data Pushed : Type 0 where
  pushed_to : Console → ℕ → Pushed
  undefined out_of_fuel : Pushed

-- What the handler leaves: the client, whether it closes the connection, and whether it ends the
-- program by raise (SIGINT).
pub data Outcome : Type 0 where
  returned : Console → Bool → Bool → Outcome
  undefined out_of_fuel : Outcome

-- sz_copy: the bytes left, or the room left where that is less
abbrev pub sz_copy : ℕ → ℕ → ℕ
sz_copy left held = if ltb sizeof_buffer (left + held) then sizeof_buffer - held else left

-- the push of `n` bytes from `sz_processed` on, behind assert (sizeof (buffer) >= sz_data)
pub push : Buffer → ℕ → ℕ → Console → Option Console
push input sz_processed n c = if ltb sizeof_buffer c.sz_data then none else do
  buffer ← memmove c.buffer c.sz_data (offset input sz_processed) n
  some (record c { buffer = buffer; sz_data = c.sz_data + n })

-- while (sz_processed < nread)
pub push_all : ℕ → Buffer → ℕ → Console → ℕ → Pushed
push_all zero input nread c sz_processed = out_of_fuel
push_all (suc fuel) input nread c sz_processed = elim (ltb sz_processed nread) [
  | false ↦ pushed_to c sz_processed
  | true ↦ elim (ltb 0 (sz_copy (nread - sz_processed) c.sz_data)) [
    | false ↦ pushed_to c sz_processed
    | true ↦ elim (push input sz_processed (sz_copy (nread - sz_processed) c.sz_data) c) [
      | none ↦ undefined
      | some c' ↦ elim (process_data c') [
        | fault ↦ undefined
        | no_fuel ↦ out_of_fuel
        | finished c'' ↦
            push_all fuel input nread c'' (sz_processed + sz_copy (nread - sz_processed) c.sz_data)
      ]
    ]
  ]
]

-- the end of the handler: num_responds >= num_requests closes the connection and ends the program
abbrev pub check_done : Console → Bool → Outcome
check_done c closed =
    let all_there : Bool = not (ltb c.num_responds c.num_requests) in
    returned c (closed || all_there) all_there

abbrev pub after_push : Pushed → Outcome
after_push (pushed_to c sz_processed) = check_done c false
after_push undefined = undefined
after_push out_of_fuel = out_of_fuel

-- `nread` is negative for an error or the end of the stream. Each round pushes a byte or more, so
-- `nread` rounds and one more are enough. A stalled connection stays open: its close is commented out.
unfoldable pub on_tcp_cli_read : Console → ℤ → Buffer → Outcome
unfolding push_all push
on_tcp_cli_read c (negsuc n) input = check_done c true
on_tcp_cli_read c (pos zero) input = check_done c false
on_tcp_cli_read c (pos (suc n)) input = elim (process_data c) [
  | fault ↦ undefined
  | no_fuel ↦ out_of_fuel
  | finished c' ↦ after_push (push_all (suc n + 1) input (suc n) c' 0)
]
