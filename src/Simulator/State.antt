-- ===== src/Simulator/State.antt =====
-- edio24svr_t of utils/edio24sim.c, its buffers, and the handlers that open and close a connection.
use libedio.Base.{ℕ, ◌+◌, ◌*◌, ◌≤◌, ◌≡◌, Bool, true, false, ltb, if◌then◌else◌, not}
use libedio.Base.{Buffer, IsBytes}
use libedio.Protocol.{pkt_length_min}
use libedio.Server.Tcp.{Chance}

-- (EDIO24_PKT_LENGTH_MIN + 6) * 5
abbrev pub sizeof_buffer : ℕ
sizeof_buffer = (pkt_length_min + 6) * 5

-- edio24svr_t
pub record Device : Type 0 where
  pub flg_used : Bool
  pub flg_randfail : Bool
  pub starttime : ℕ
  pub timeout : ℕ
  pub sz_data : ℕ
  pub buffer : Buffer

-- The received bytes fit the buffer.
pub record IsDevice (d : Device) : Type 0 where
  pub size : d.buffer.cap ≡ sizeof_buffer
  pub held : d.sz_data ≤ sizeof_buffer
  pub bytes : IsBytes d.buffer.byte

-- A message that libuv was given to send.
pub record Message : Type 0 where
  pub size : ℕ
  pub byte : ℕ → ℕ

-- What one round draws by chance: rand() for the choice to fail, what edio24_svr_process_tcp draws,
-- and the contents of memory that is allocated in the round.
pub record Turn : Type 0 where
  pub coin : ℕ
  pub chance : Chance
  pub fresh : ℕ → ℕ

-- realloc_buffer: a buffer that is long enough stays as it is.
unfoldable pub realloc_buffer : (ℕ → ℕ) → ℕ → Buffer → Buffer
realloc_buffer fresh suggested_size buf =
    if not (ltb buf.cap suggested_size)
    then buf
    else record { cap = suggested_size; byte = λ i. if ltb i buf.cap then buf.byte i else fresh i }

-- main_svr, as far as it sets the state: memset and the fields behind it
unfoldable pub initial : ℕ → ℕ → Bool → Device
initial starttime timeout flg_randfail = record {
  flg_used = false;
  flg_randfail = flg_randfail;
  starttime = starttime;
  timeout = timeout;
  sz_data = 0;
  buffer = record { cap = sizeof_buffer; byte = λ _. 0 };
}

-- on_tcp_svr_accept: `failed` is `status < 0`, `accepted` is `uv_accept (…) == 0`. The result tells
-- whether the connection is read from now on.
unfoldable pub on_tcp_svr_accept : Bool → Bool → Device → Device × Bool
on_tcp_svr_accept failed accepted d =
    if failed
    then (d, false)
    else if d.flg_used
    then (d, false)
    else if accepted
    then (record d { flg_used = true }, true)
    else (record d { flg_used = false }, false)

-- on_tcp_svr_close
unfoldable pub on_tcp_svr_close : Device → Device
on_tcp_svr_close d = record d { flg_used = false }

-- idle_cb: whether the time is over
unfoldable pub idle_cb : ℕ → Device → Bool
idle_cb curtime d = not (ltb curtime (d.starttime + d.timeout))
