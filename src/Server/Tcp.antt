-- ===== src/Server/Tcp.antt =====
-- edio24_svr_process_tcp of src/libedio24.c. What rand() returns, and what the local variables hold
-- that no statement sets before they are read, come in as arguments.
pub mod Laws
pub mod Process
use libedio.Base.{ℕ, zero, suc, ◌+◌, ◌-◌, ◌*◌, ◌%◌, ◌^◌, Option, none, some, List, [], ◌∷◌}
use libedio.Base.{Bool, true, false, ◌||◌, ◌&&◌, not, ltb, ◌==◌, if◌then◌else◌, ◌>>=◌}
use libedio.Base.{Buffer, load, store, ℤ, pos, negsuc, is_negative}
use mathlib.Core.Option
use libedio.Protocol.{
  cmd_din_r, cmd_dout_r, cmd_dout_w, cmd_dconf_r, cmd_dconf_w, cmd_counter_r, cmd_counter_w,
  cmd_conf_mem_r, cmd_conf_mem_w, cmd_usr_mem_r, cmd_usr_mem_w, cmd_set_mem_r, cmd_set_mem_w,
  cmd_boot_mem_r, cmd_boot_mem_w, cmd_blinkled, cmd_status, cmd_network_conf, msg_success,
  msg_error_protocol, msg_error_parameter, msg_error_other, msg_index_frame, msg_index_data,
  pkt_length_min,
}
use libedio.Packet.Verify.{read_hdr_command, read_hdr_count, pkt_verify}
use libedio.Packet.Read.{read_value}
use libedio.Packet.Respond.{create_respond}

-- What the pointers of a call show.
pub record Pointers : Type 0 where
  pub buffer_out : Option Buffer
  pub sz_out : Option ℕ
  pub sz_processed : Option ℕ
  pub sz_needed_in : Option ℕ
  pub sz_needed_out : Option ℕ

-- The value of rand(), and the indeterminate contents of `address` and `sz_data`.
pub record Chance : Type 0 where
  pub rand : ℕ
  pub address : ℕ
  pub sz_data : ℕ

abbrev pub Result : Type 0
Result = Option (ℤ × Pointers)

-- The cases of the switch over the command.
pub data Case : Type 0 where
  pins pin_write plain counter status_word network boot led unsupported : Case
  ranged : ℕ → Case

abbrev pub contains : List ℕ → ℕ → Bool
contains [] a = false
contains (x ∷ xs) a = a == x || contains xs a

unfoldable pub case_of : ℕ → Case
case_of cmd =
    if contains (cmd_din_r ∷ cmd_dconf_r ∷ cmd_dout_r ∷ []) cmd
    then pins
    else if contains (cmd_dconf_w ∷ cmd_dout_w ∷ []) cmd
    then pin_write
    else if contains
        (cmd_counter_w ∷ cmd_conf_mem_w ∷ cmd_usr_mem_w ∷ cmd_set_mem_w ∷ cmd_boot_mem_w ∷ []) cmd
    then plain
    else if cmd == cmd_counter_r
    then counter
    else if cmd == cmd_status
    then status_word
    else if cmd == cmd_network_conf
    then network
    else if cmd == cmd_usr_mem_r
    then ranged 0x0EEF
    else if cmd == cmd_conf_mem_r
    then ranged 0x0F
    else if cmd == cmd_set_mem_r
    then ranged 0xFF
    else if cmd == cmd_boot_mem_r
    then boot
    else if cmd == cmd_blinkled
    then led
    else unsupported

-- What the switch leaves: `ret` set to -1 or not, the status, and the byte size of the data.
pub record Switched : Type 0 where
  pub supported : Bool
  pub status : ℕ
  pub len_data : ℕ

-- (sz_data < 1) || (sz_data > 1024) || (address > max_address) || (address + sz_data > max_address)
abbrev pub out_of_range : ℕ → ℕ → ℕ → Bool
out_of_range max_address address sz_data =
    ltb sz_data 1
    || ltb 1024 sz_data
    || ltb max_address address
    || ltb max_address ((address + sz_data) % 2 ^ 32)

-- The switch. Where a value is read only to be printed, the read is kept and its result dropped.
pub switch : Case → Buffer → ℕ → Chance → ℕ → Option Switched
switch pins b sz_in c status = some (record { supported = true; status = status; len_data = 3 })
switch pin_write b sz_in c status = do
  _mask ← read_value (some b) sz_in 0 3 (some 0)
  _value ← read_value (some b) sz_in 3 3 (some 0)
  some (record { supported = true; status = status; len_data = 0 })
switch plain b sz_in c status = some (record { supported = true; status = status; len_data = 0 })
switch counter b sz_in c status = some (record { supported = true; status = status; len_data = 4 })
switch status_word b sz_in c status =
    some (record { supported = true; status = status; len_data = 2 })
switch network b sz_in c status = some (record { supported = true; status = status; len_data = 12 })
switch (ranged max_address) b sz_in c status = do
  (_, address) ← read_value (some b) sz_in 0 2 (some c.address)
  (_, sz_data) ← read_value (some b) sz_in 2 2 (some c.sz_data)
  let len = Option.get_or sz_data 0
  some (
      if out_of_range max_address (Option.get_or address 0) len
      then record { supported = true; status = msg_error_parameter; len_data = 0 }
      else record { supported = true; status = status; len_data = len % 2 ^ 16 })
switch boot b sz_in c status = do
  (_, sz_data) ← read_value (some b) sz_in 2 2 (some c.sz_data)
  some (record { supported = true; status = status; len_data = Option.get_or sz_data 0 % 2 ^ 16 })
switch led b sz_in c status = do
  _value ← read_value (some b) sz_in 0 1 (some 0)
  some (record { supported = true; status = status; len_data = 0 })
switch unsupported b sz_in c status =
    some (record { supported = false; status = status; len_data = 0 })

-- for (i = 0; i < len_data; i++) buffer_out[MSG_INDEX_DATA + i] = (1 + i) & 0xFF
pub fill : Buffer → ℕ → ℕ → Option Buffer
fill b zero i = some b
fill b (suc left) i = store b (msg_index_data + i) ((1 + i) % 256) >>= λ b'. fill b' left (i + 1)

-- sizeof (buffer_out): the size of a pointer, eight bytes where `size_t` has 64 bits.
abbrev pub sizeof_buffer_out : ℕ
sizeof_buffer_out = 8

-- The data and the reply. What edio24_pkt_create_respond returns is dropped.
pub reply : Buffer → ℕ → ℕ → ℕ → ℕ → Option Buffer → Pointers → Result
reply b cmd count status len_data none p = none
reply b cmd count status len_data (some out) p = do
  out₁ ← fill out len_data 0
  frame ← load b msg_index_frame
  (_, out₂) ← create_respond (some out₁) sizeof_buffer_out cmd frame status len_data (some out₁)
  some (
    pos 0,
    record p {
      buffer_out = out₂;
      sz_processed = some (pkt_length_min + count);
      sz_out = some (pkt_length_min + len_data);
    },
  )

-- The test of the room for the reply.
pub answer : Buffer → ℕ → ℕ → Switched → Option ℕ → Pointers → Result
unfolding reply fill
answer b cmd count s none p = none
answer b cmd count s (some sz_out) p =
    if ltb sz_out (msg_index_data + 1 + s.len_data)
    then some (
      pos 1,
      record p { sz_needed_out = some (msg_index_data + 1 + s.len_data - sz_out); sz_out = some 0 },
    )
    else reply b cmd count s.status s.len_data p.buffer_out p

-- `ret` after the verification: 0, or 2 for a damaged packet
abbrev pub ret_of : ℤ → ℕ
ret_of (pos zero) = 0
ret_of (pos (suc n)) = 2
ret_of (negsuc n) = 2

-- The status: a damaged packet, a failure by chance, or success.
abbrev pub status_of : Bool → ℕ → ℕ → ℕ
status_of force_fail rand zero = if force_fail then rand % msg_error_other + 1 else msg_success
status_of force_fail rand (suc n) = msg_error_protocol

-- `ret != 0` returns before the reply; the default case of the switch makes it -1.
pub conclude : Buffer → ℕ → ℕ → ℕ → Switched → Pointers → Result
unfolding answer
conclude b cmd count ret s p =
    if not s.supported
    then some (negsuc 0, p)
    else if not (ret == 0)
    then some (pos ret, p)
    else answer b cmd count s p.sz_out p

-- a packet that is there in full
pub process_packet : Bool → Buffer → ℕ → Chance → ℕ → ℕ → Pointers → Result
unfolding conclude switch
process_packet force_fail b sz_in c cmd count p = do
  verdict ← pkt_verify (some b) sz_in
  let ret = ret_of verdict
  s ← switch (case_of cmd) b sz_in c (status_of force_fail c.rand ret)
  conclude b cmd count ret s p

-- the test of the size against the count of the header
pub process_counted : Bool → Buffer → ℕ → Chance → ℕ → ℤ → ℕ → Pointers → Result
unfolding process_packet
process_counted force_fail b sz_in c cmd ret count p =
    if is_negative ret
    then some (negsuc 0, p)
    else if ltb sz_in (msg_index_data + 1 + count)
    then some (pos 1, record p { sz_needed_in = some (msg_index_data + 1 + count - sz_in) })
    else process_packet force_fail b sz_in c cmd count p

-- the header, behind the test of the least size
pub process_header : Bool → Buffer → ℕ → Chance → Pointers → Result
unfolding process_counted
process_header force_fail b sz_in c p = do
  (_, cmd) ← read_hdr_command (some b) sz_in (some 0)
  (ret, count) ← read_hdr_count (some b) sz_in (some 0)
  process_counted force_fail b sz_in c (Option.get_or cmd 0) ret (Option.get_or count 0) p

pub process_sized : Bool → Buffer → ℕ → Chance → Pointers → Result
unfolding process_header
process_sized force_fail b sz_in c p =
    if ltb sz_in (msg_index_data + 1)
    then some (pos 1, record p { sz_needed_in = some (msg_index_data + 1 - sz_in) })
    else process_header force_fail b sz_in c p

-- `if (NULL == pointer) return -1;` with what follows it
abbrev pub require : Option ℕ → Result → Result → Result
require none refused next = refused
require (some _) refused next = next

unfoldable pub svr_process_tcp : Bool → Option Buffer → ℕ → Chance → Pointers → Result
unfolding process_sized
svr_process_tcp force_fail none sz_in c p = some (negsuc 0, p)
svr_process_tcp force_fail (some b) sz_in c p =
    let p₁ = record p { sz_processed = some 0 } in
    let p₂ = record p₁ { sz_needed_in = some 0 } in
    let p₃ = record p₂ { sz_needed_out = some 0 } in
    require p.sz_processed (some (negsuc 0, p)) (
      require p.sz_needed_in (some (negsuc 0, p₁))
        (require p.sz_needed_out (some (negsuc 0, p₂)) (process_sized force_fail b sz_in c p₃)))
