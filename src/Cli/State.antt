-- ===== src/Cli/State.antt =====
-- edio24cli_t of utils/edio24cli.c.
use libedio.Base.{ℕ, ◌+◌, ◌≤◌, ◌≡◌, Bool, not, ltb, Buffer, IsBytes}
use libedio.Protocol.{pkt_length_min}

-- EDIO24_PKT_LENGTH_MIN + 1024
abbrev pub sizeof_buffer : ℕ
sizeof_buffer = pkt_length_min + 1024

-- edio24cli_t, without the addresses and the handles of libuv
pub record Console : Type 0 where
  pub frame : ℕ
  pub num_requests : ℕ
  pub num_responds : ℕ
  pub starttime : ℕ
  pub timeout : ℕ
  pub sz_data : ℕ
  pub buffer : Buffer

-- The received bytes fit the buffer.
pub record IsConsole (c : Console) : Type 0 where
  pub size : c.buffer.cap ≡ sizeof_buffer
  pub held : c.sz_data ≤ sizeof_buffer
  pub bytes : IsBytes c.buffer.byte

-- main_cli, as far as it sets the state: memset and the fields behind it
unfoldable pub initial : ℕ → ℕ → Console
initial starttime timeout = record {
  frame = 0;
  num_requests = 0;
  num_responds = 0;
  starttime = starttime;
  timeout = timeout;
  sz_data = 0;
  buffer = record { cap = sizeof_buffer; byte = λ _. 0 };
}

-- idle_cb: whether the time is over
unfoldable pub idle_cb : ℕ → Console → Bool
idle_cb curtime c = not (ltb curtime (c.starttime + c.timeout))
