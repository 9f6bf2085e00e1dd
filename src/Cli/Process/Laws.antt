-- ===== src/Cli/Process/Laws.antt =====
-- The loop of edio24cli_process_data of utils/edio24cli.c: what it takes and counts, and where it ends.
use libedio.Base.{
  ℕ, zero, suc, ◌+◌, ◌-◌, ◌%◌, ◌^◌, ◌≤◌, ◌<◌, ◌≡◌, refl, ◌⊎◌, inl, inr, arith, Option, some, false,
  true, lt→ltb, le→ltb,
}
use libedio.Inbox.{shift_lem, shifted_bytes, shifted_bytes-IsBytes}
use libedio.Packet.Verify.Laws.{count_of, IsWhole}
use libedio.Client.Tcp.Laws.{
  wants_header, wants_data, damaged, refused, accepted, answered, is_supported,
  cli_verify_tcp-Checked,
}
use libedio.Cli.State.{Console, IsConsole}
use libedio.Cli.Process.{
  After, stop, again, Run, finished, take_processed, branch, finish_round, round, rounds,
  process_data,
}

-- The console behind the reply at the head of its data: the reply is taken and counted.
abbrev pub taken : Console → Console
taken c = record c {
  num_responds = (c.num_responds + 1) % 2 ^ 64;
  sz_data = c.sz_data - (7 + count_of c.buffer.byte);
  buffer = record c.buffer {
    byte =
        shifted_bytes c.buffer.byte (7 + count_of c.buffer.byte)
          (c.sz_data - (7 + count_of c.buffer.byte));
  };
}

-- The data start with a whole reply to a command that the client knows.
abbrev pub IsReply : Console → Type 0
IsReply c = IsWhole c.buffer.byte c.sz_data × (is_supported (answered c.buffer.byte) ≡ true)

-- They do not: no whole packet, or the reply to an unknown command.
abbrev pub IsStuck : Console → Type 0
IsStuck c = (¬ IsWhole c.buffer.byte c.sz_data) ⊎ (is_supported (answered c.buffer.byte) ≡ false)

take_processed_lem :
    (n : ℕ) (c : Console)
    → IsConsole c
    → 1 ≤ n
    → n ≤ c.sz_data
    → take_processed n c
      ≡ some (record c {
        buffer = record c.buffer { byte = shifted_bytes c.buffer.byte n (c.sz_data - n) };
        sz_data = c.sz_data - n;
      })
unfolding take_processed
take_processed_lem zero c v h k = absurd (omega arith)
take_processed_lem (suc n) c v h k =
    rw
      (
        le→ltb c.sz_data (suc n) k,
        shift_lem c.buffer (suc n) (c.sz_data - suc n) (omega (arith, v.size, v.held)),
      )
      refl

taken-IsConsole : (c : Console) → IsConsole c → IsConsole (taken c)
taken-IsConsole c v = record {
  size = v.size;
  held = omega (arith, v.held);
  bytes = shifted_bytes-IsBytes c.buffer.byte _ _ v.bytes;
}

-- What a round comes to.
data Advance (c : Console) (result : Option After) : Type 0 where
  waits : result ≡ some (stop c) → IsStuck c → Advance c result
  counts : result ≡ some (again (taken c)) → IsReply c → Advance c result

round-Advance : (c : Console) → IsConsole c → Advance c (round c)
unfolding round finish_round branch
round-Advance c v =
    elim (cli_verify_tcp-Checked c.buffer c.sz_data 0 0 v.bytes (omega (arith, v.size, v.held))
      (omega (arith, v.held)) (omega (arith, v.size))) [
        | wants_header short e ↦
            rw (e, lt→ltb 0 (7 - c.sz_data) (omega arith))
              (waits refl (inl (λ w. omega (arith, w.0))))
        | wants_data least short e ↦
            rw (e, lt→ltb 0 (7 + count_of c.buffer.byte - c.sz_data) (omega arith))
              (waits refl (inl (λ w. omega (arith, w.0))))
        | damaged fits broken e ↦ rw e (waits refl (inl broken))
        | refused w unknown e ↦ rw e (waits refl (inr unknown))
        | accepted w known e ↦
            rw (e, take_processed_lem (7 + count_of c.buffer.byte) c v (omega arith) w.0)
              (counts refl (w, known))
      ]

-- Replies taken from the head of the data, one after the other, each counted.
pub data Counted : Console → Console → Type 0 where
  none_left : {c : Console} → Counted c c
  reply : {c c' : Console} → IsReply c → Counted (taken c) c' → Counted c c'

-- A run that ended, and where.
pub record Ended (c : Console) (run : Run) : Type 0 where
  pub last : Console
  pub finishes : run ≡ finished last
  pub counted : Counted c last
  pub valid : IsConsole last
  pub no_more : last.sz_data ≤ c.sz_data
  pub stuck : IsStuck last

rounds-Ended : (fuel : ℕ) (c : Console) → IsConsole c → c.sz_data < fuel → Ended c (rounds fuel c)
unfolding rounds
rounds-Ended zero c v h = absurd (omega arith)
rounds-Ended (suc fuel) c v h = elim (round-Advance c v) [
  | waits e stuck ↦ record {
    last = c;
    finishes = rw (e, rounds) refl;
    counted = none_left;
    valid = v;
    no_more = omega arith;
    stuck = stuck;
  }
  | counts e is_reply ↦
      let rest : Ended (taken c) (rounds fuel (taken c)) =
        rounds-Ended fuel (taken c) (taken-IsConsole c v) (omega (arith, is_reply.0.0)) in
      record {
        last = rest.last;
        finishes = rw (e, rounds) rest.finishes;
        counted = reply is_reply rest.counted;
        valid = rest.valid;
        no_more = omega (arith, rest.no_more);
        stuck = rest.stuck;
      }
]

-- The client's loop over the received data ends, without a failed assertion or an access outside the
-- buffer: it takes whole replies from the head of the data one after the other, counts each, and
-- leaves what it cannot take as it is: no whole packet, or the reply to an unknown command.
pub process_data-Ended : (c : Console) → IsConsole c → Ended c (process_data c)
unfolding process_data
process_data-Ended c v = rounds-Ended (c.sz_data + 1) c v (omega arith)
