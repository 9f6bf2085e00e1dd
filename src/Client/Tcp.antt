-- ===== src/Client/Tcp.antt =====
-- edio24_cli_verify_tcp of src/libedio24.c. What is printed is not modelled; the reads for it are.
pub mod Laws
use libedio.Base.{ℕ, zero, suc, ◌+◌, ◌-◌, Option, none, some, List, [], ◌∷◌, bit_and}
use libedio.Base.{Bool, true, false, ◌||◌, ltb, ◌==◌, if◌then◌else◌, ◌>>=◌, Buffer, load, memmove}
use libedio.Base.{ℤ, pos, negsuc, is_negative}
use mathlib.Core.Option
use libedio.Protocol.{
  cmd_din_r, cmd_dout_r, cmd_dout_w, cmd_dconf_r, cmd_dconf_w, cmd_counter_r, cmd_counter_w,
  cmd_conf_mem_r, cmd_conf_mem_w, cmd_usr_mem_r, cmd_usr_mem_w, cmd_set_mem_r, cmd_set_mem_w,
  cmd_boot_mem_r, cmd_boot_mem_w, cmd_blinkled, cmd_status, cmd_network_conf, msg_index_status,
  msg_index_data, msg_reply, pkt_length_min,
}
use libedio.Packet.Verify.{read_hdr_command, read_hdr_count, pkt_verify}
use libedio.Packet.Read.{read_value, offset}

-- What the pointers of a call show.
pub record Progress : Type 0 where
  pub sz_processed : Option ℕ
  pub sz_needed_in : Option ℕ

abbrev pub Result : Type 0
Result = Option (ℤ × Progress)

-- The cases of the switch over the command; `printed` only prints.
pub data Case : Type 0 where
  pins counter status_word network printed unsupported : Case

abbrev pub contains : List ℕ → ℕ → Bool
contains [] a = false
contains (x ∷ xs) a = a == x || contains xs a

unfoldable pub case_of : ℕ → Case
case_of cmd =
    if contains (cmd_din_r ∷ cmd_dconf_r ∷ cmd_dout_r ∷ []) cmd
    then pins
    else if contains
        (cmd_blinkled ∷ cmd_dconf_w ∷ cmd_dout_w ∷ cmd_counter_w ∷ cmd_conf_mem_w ∷ cmd_usr_mem_w
          ∷ cmd_set_mem_w ∷ cmd_boot_mem_w ∷ [])
        cmd
    then printed
    else if cmd == cmd_counter_r
    then counter
    else if cmd == cmd_status
    then status_word
    else if cmd == cmd_network_conf
    then network
    else if contains (cmd_conf_mem_r ∷ cmd_usr_mem_r ∷ cmd_set_mem_r ∷ cmd_boot_mem_r ∷ []) cmd
    then printed
    else unsupported

-- struct in_addr net[3]: twelve bytes, whose first contents do not matter
net : Buffer
net = record { cap = 12; byte = λ _. 0 }

-- The switch: whether the command is known. The values are read to be printed.
pub switch : Case → Buffer → ℕ → Option Bool
unfolding net
switch pins b sz_in = do _val2 ← read_value (some b) sz_in 0 3 (some 0); some true
switch counter b sz_in = do _val2 ← read_value (some b) sz_in 0 4 (some 0); some true
switch status_word b sz_in = do _val2 ← read_value (some b) sz_in 0 2 (some 0); some true
switch network b sz_in = do _net ← memmove net 0 (offset b msg_index_data) 12; some true
switch printed b sz_in = some true
switch unsupported b sz_in = some false

-- *sz_processed = EDIO24_PKT_LENGTH_MIN + count, behind its assertion
conclude : ℕ → Bool → Progress → Option ℕ → Result
conclude count false p sz_processed = some (negsuc 0, p)
conclude count true p none = none
conclude count true p (some _) =
    some (pos 0, record p { sz_processed = some (pkt_length_min + count) })

-- `return 1` with *sz_needed_in = needed, behind its assertion
need : ℕ → Progress → Option ℕ → Result
need needed p none = none
need needed p (some _) = some (pos 1, record p { sz_needed_in = some needed })

-- a packet that is there in full; any result of the verification but 0 makes it 2
verified : Buffer → ℕ → ℕ → ℕ → Progress → ℤ → Result
unfolding switch conclude
verified b sz_in cmd count p (negsuc n) = some (pos 2, p)
verified b sz_in cmd count p (pos (suc n)) = some (pos 2, p)
verified b sz_in cmd count p (pos zero) = do
  _status ← load b msg_index_status
  known ← switch (case_of cmd) b sz_in
  conclude count known p p.sz_processed

pub verify_packet : Buffer → ℕ → ℕ → ℕ → Progress → Result
unfolding verified
verify_packet b sz_in cmd count p = pkt_verify (some b) sz_in >>= verified b sz_in cmd count p

-- the test of the size against the count of the header
pub verify_counted : Buffer → ℕ → ℕ → ℤ → ℕ → Progress → Result
unfolding verify_packet need
verify_counted b sz_in cmd ret count p =
    if is_negative ret
    then some (negsuc 0, p)
    else if ltb sz_in (msg_index_data + 1 + count)
    then need (msg_index_data + 1 + count - sz_in) p p.sz_needed_in
    else verify_packet b sz_in cmd count p

-- the header; the command loses its reply bit: cmd & (~MSG_REPLY)
pub verify_header : Buffer → ℕ → Progress → Result
unfolding verify_counted
verify_header b sz_in p = do
  (_, cmd) ← read_hdr_command (some b) sz_in (some 0)
  (ret, count) ← read_hdr_count (some b) sz_in (some 0)
  verify_counted b sz_in (bit_and (Option.get_or cmd 0) (0xFF - msg_reply)) ret
      (Option.get_or count 0) p

-- `if (p) *p = 0;`
abbrev pub clear : Option ℕ → Option ℕ
clear none = none
clear (some _) = some 0

unfoldable pub cli_verify_tcp : Option Buffer → ℕ → Progress → Result
unfolding verify_header need
cli_verify_tcp none sz_in p =
    some (
      negsuc 0,
      record { sz_processed = clear p.sz_processed; sz_needed_in = clear p.sz_needed_in },
    )
cli_verify_tcp (some b) sz_in p =
    let p' : Progress = record {
      sz_processed = clear p.sz_processed;
      sz_needed_in = clear p.sz_needed_in;
    } in
    if ltb sz_in (msg_index_data + 1)
    then need (msg_index_data + 1 - sz_in) p' p'.sz_needed_in
    else verify_header b sz_in p'
