-- ===== src/Cli/Receive/Laws.antt =====
-- What on_tcp_cli_read of utils/edio24cli.c does with the bytes of one read.
use libedio.Base.{ℕ, zero, suc, ◌+◌, ◌-◌, ◌≤◌, ◌<◌, ◌≡◌, refl, ◌⊎◌, arith, some, not}
use libedio.Base.{
  ltb, le→ltb, ltb→lt, ltb→le, Bool-cases, inl, inr, Buffer, IsBytes, copied, copied-IsBytes,
  memmove_lem, pos,
}
use libedio.Packet.Read.{offset}
use libedio.Cli.State.{Console, IsConsole, sizeof_buffer}
use libedio.Cli.Process.{process_data}
use libedio.Cli.Process.Laws.{IsStuck, Ended, Counted, process_data-Ended}
use libedio.Cli.Receive.{
  Pushed, pushed_to, Outcome, returned, sz_copy, push, push_all, on_tcp_cli_read,
}

-- the client with `n` more bytes
abbrev pub pushed : Buffer → ℕ → ℕ → Console → Console
pushed input sz_processed n c = record c {
  buffer = record c.buffer {
    byte = copied c.buffer.byte c.sz_data (λ i. input.byte (sz_processed + i)) n;
  };
  sz_data = c.sz_data + n;
}

push_lem :
    (input : Buffer) (sz_processed n : ℕ) (c : Console)
    → IsConsole c
    → c.sz_data + n ≤ sizeof_buffer
    → sz_processed + n ≤ input.cap
    → push input sz_processed n c ≡ some (pushed input sz_processed n c)
unfolding push
push_lem input sz_processed n c v h k = rw (
  le→ltb sizeof_buffer c.sz_data v.held,
  memmove_lem c.buffer c.sz_data (offset input sz_processed) n (omega (arith, v.size))
      (omega arith),
)

pushed-IsConsole :
    (input : Buffer) (sz_processed n : ℕ) (c : Console)
    → IsConsole c
    → IsBytes input.byte
    → c.sz_data + n ≤ sizeof_buffer
    → IsConsole (pushed input sz_processed n c)
pushed-IsConsole input sz_processed n c v bytes h = record {
  size = v.size;
  held = h;
  bytes = copied-IsBytes c.buffer.byte c.sz_data _ n v.bytes (λ i. bytes (sz_processed + i));
}

-- The bytes that are pushed at once: no more than are left and fit, and none only where all is full.
sz_copy_bounds :
    (left held : ℕ)
    → held ≤ sizeof_buffer
    → (sz_copy left held ≤ left) × (held + sz_copy left held ≤ sizeof_buffer)
sz_copy_bounds left held h = ground arith

sz_copy-full :
    (left held : ℕ) → 0 < left → held ≤ sizeof_buffer → sz_copy left held ≤ 0 → held ≡ sizeof_buffer
sz_copy-full left held l h k = ground arith

-- The life of the data during a read: replies are taken and counted, and received bytes are pushed in
-- their order, from the first to the one before `sz_processed`.
pub data Fed (input : Buffer) (c : Console) : Console → ℕ → Type 0 where
  start : Fed input c c 0
  takes : {c' c'' : Console} {n : ℕ} → Fed input c c' n → Counted c' c'' → Fed input c c'' n
  feeds :
      {c' : Console} {n : ℕ}
      → Fed input c c' n
      → (more : ℕ) → Fed input c (pushed input n more c') (n + more)

-- What the push loop leaves: a valid client that is stuck, fed with all bytes, or full.
pub record Received (input : Buffer) (nread : ℕ) (c : Console) (result : Pushed) : Type 0 where
  pub last : Console
  pub fed : ℕ
  pub returns : result ≡ pushed_to last fed
  pub history : Fed input c last fed
  pub within : fed ≤ nread
  pub valid : IsConsole last
  pub stuck : IsStuck last
  pub full : (fed ≡ nread) ⊎ (last.sz_data ≡ sizeof_buffer)

module _ (input : Buffer) (nread : ℕ) (room : nread ≤ input.cap) (bytes : IsBytes input.byte)
    (c : Console) where
  push_all-Received :
      (fuel : ℕ) (c' : Console) (fed : ℕ)
      → Fed input c c' fed
      → IsConsole c'
      → IsStuck c'
      → fed ≤ nread
      → nread < fuel + fed
      → Received input nread c (push_all fuel input nread c' fed)
  unfolding push_all
  push_all-Received zero c' fed f v stuck k h = absurd (omega arith)
  push_all-Received (suc fuel) c' fed f v stuck k h = elim (Bool-cases (ltb fed nread)) [
    | inr over ↦
        rw (over, push_all)
          (record {
            last = c';
            fed = fed;
            returns = refl;
            history = f;
            within = k;
            valid = v;
            stuck = stuck;
            full = inl (omega (arith, ltb→le _ _ over));
          })
    | inl more ↦ elim (Bool-cases (ltb 0 (sz_copy (nread - fed) c'.sz_data))) [
      | inr none_fits ↦
          rw (more, none_fits, push_all)
            (record {
              last = c';
              fed = fed;
              returns = refl;
              history = f;
              within = k;
              valid = v;
              stuck = stuck;
              full = inr (
                  sz_copy-full (nread - fed) c'.sz_data (omega (arith, ltb→lt _ _ more)) v.held
                    (ltb→le _ _ none_fits));
            })
      | inl some_fit ↦
          let n : ℕ = sz_copy (nread - fed) c'.sz_data in
          let under : fed < nread = ltb→lt _ _ more in
          let at_least : 0 < n = ltb→lt _ _ some_fit in
          let fits : (n ≤ nread - fed) × (c'.sz_data + n ≤ sizeof_buffer) =
            sz_copy_bounds (nread - fed) c'.sz_data v.held in
          let run : Ended (pushed input fed n c') (process_data (pushed input fed n c')) =
            process_data-Ended (pushed input fed n c')
              (pushed-IsConsole input fed n c' v bytes fits.1) in
          let rest : Received input nread c (push_all fuel input nread run.last (fed + n)) =
            push_all-Received fuel run.last (fed + n) (takes (feeds f n) run.counted) run.valid
              run.stuck (omega arith) (omega arith) in
          rw
            (more, some_fit, push_lem input fed n c' v fits.1 (omega arith), run.finishes, push_all)
            rest
    ]
  ]

-- What the handler leaves.
pub record Handled (input : Buffer) (nread : ℕ) (c : Console) (result : Outcome) : Type 0 where
  pub last : Console
  pub fed : ℕ
  pub returns :
      result
      ≡ returned last
          (not (ltb last.num_responds last.num_requests))
          (not (ltb last.num_responds last.num_requests))
  pub history : Fed input c last fed
  pub within : fed ≤ nread
  pub valid : IsConsole last
  pub stuck : IsStuck last
  pub full : (fed ≡ nread) ⊎ (last.sz_data ≡ sizeof_buffer)

-- Any number of received bytes above 0 is handled to an end, without a failed assertion or an access
-- outside a buffer. The bytes are pushed in their order, and whole replies are taken and counted; all
-- are pushed, or the buffer is full of data that the client cannot take. The client closes the
-- connection and ends exactly if it has counted as many replies as it sent requests, or more.
pub on_tcp_cli_read-Handled :
    (c : Console) (n : ℕ) (input : Buffer)
    → IsConsole c
    → IsBytes input.byte
    → suc n ≤ input.cap
    → Handled input (suc n) c (on_tcp_cli_read c (pos (suc n)) input)
unfolding on_tcp_cli_read
on_tcp_cli_read-Handled c n input v bytes room =
    let first : Ended c (process_data c) = process_data-Ended c v in
    let got : Received input (suc n) c (push_all (suc n + 1) input (suc n) first.last 0) =
      push_all-Received input (suc n) room bytes c (suc n + 1) first.last 0
        (takes start first.counted) first.valid first.stuck (omega arith) (omega arith) in
    rw (first.finishes, got.returns, on_tcp_cli_read)
      (record {
        last = got.last;
        fed = got.fed;
        returns = refl;
        history = got.history;
        within = got.within;
        valid = got.valid;
        stuck = got.stuck;
        full = got.full;
      })
