-- ===== src/Cli/Process.antt =====
-- edio24cli_process_data of utils/edio24cli.c: the replies in the buffer, one round for each.
pub mod Laws
use libedio.Base.{
  ℕ, zero, suc, ◌+◌, ◌-◌, ◌%◌, ◌^◌, Option, none, some, ltb, if◌then◌else◌, ◌>>=◌, ℤ, pos, negsuc,
}
use mathlib.Core.Option
use libedio.Inbox.{shift}
use libedio.Client.Tcp.{Progress, cli_verify_tcp}
use libedio.Cli.State.{Console}

-- How a round ends: by `break`, or with another round.
pub data After : Type 0 where
  stop again : Console → After

-- How the loop ends. `fault` is undefined behaviour or a failed assertion.
pub data Run : Type 0 where
  finished : Console → Run
  fault no_fuel : Run

-- Remove the head of the data, behind assert (sz_processed <= ped->sz_data).
pub take_processed : ℕ → Console → Option Console
take_processed zero c = some c
take_processed (suc n) c = if ltb c.sz_data (suc n) then none else do
  buffer ← shift c.buffer (suc n) (c.sz_data - suc n)
  some (record c { buffer = buffer; sz_data = c.sz_data - suc n })

-- the branches over `ret` at the end of a round; `num_responds` is a `size_t`
pub branch : ℤ → Console → After
branch (negsuc n) c = stop c
branch (pos zero) c = again (record c { num_responds = (c.num_responds + 1) % 2 ^ 64 })
branch (pos (suc zero)) c = again c
branch (pos (suc (suc zero))) c = stop c
branch (pos (suc (suc (suc n)))) c = again c

-- The rest of a round, after edio24_cli_verify_tcp returned `ret`.
pub finish_round : Console → ℤ → ℕ → ℕ → Option After
unfolding take_processed branch
finish_round c ret sz_processed sz_needed_in = do
  c' ← take_processed sz_processed c
  some (if ltb 0 sz_needed_in then stop c' else branch ret c')

pub round : Console → Option After
unfolding finish_round
round c = do
  (ret, p) ←
      cli_verify_tcp (some c.buffer) c.sz_data
        (record { sz_processed = some 0; sz_needed_in = some 0 })
  finish_round c ret (Option.get_or p.sz_processed 0) (Option.get_or p.sz_needed_in 0)

-- while (1)
pub rounds : ℕ → Console → Run
rounds zero c = no_fuel
rounds (suc fuel) c = elim (round c) [
  | none ↦ fault
  | some (stop c') ↦ finished c'
  | some (again c') ↦ rounds fuel c'
]

-- A round that goes on has taken seven bytes or more, so `sz_data` rounds and one more are enough.
unfoldable pub process_data : Console → Run
unfolding rounds
process_data c = rounds (c.sz_data + 1) c
