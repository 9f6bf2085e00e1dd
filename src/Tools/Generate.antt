-- ===== src/Tools/Generate.antt =====
-- The commands of utils/gencctcmd.c for the devices of a file: do_setatten, do_setpower and
-- do_getpower. What they write is a list.
pub mod Laws
pub mod Attenuators
mod Tests
use libedio.Base.{
  ℕ, zero, suc, ◌+◌, ◌-◌, ◌*◌, ◌/◌, ◌^◌, bit_and, Option, none, some, List, [], ◌∷◌, ◌++◌, Bool,
  true, false,
}
use libedio.Base.{not, ◌==◌, if◌then◌else◌, ◌>>=◌, ℤ, pos, negsuc, Buffer}
use libedio.Text.{literal}
use libedio.Text.Print.{decimal}
use libedio.Tools.Boards.{BoardList, brdlst_get}
use libedio.Tools.Column.{cstr_line_get_column}
use libedio.Tools.Command.{
  Line, connect_to, parse_values_atten, output_power, output_power_read, output_atten, power_arg,
}

-- one of get_ip_of_edio24, get_name_of_edio24 and get_mac_of_edio24, by its column
abbrev pub column_of : BoardList → ℤ → ℕ → Buffer → ℕ → Option (ℤ × Buffer)
column_of g_lst_edio24 id column ret_buf sz_buf = brdlst_get g_lst_edio24 id >>= λ row. elim row [
  | none ↦ some (negsuc 0, ret_buf)
  | some s ↦ cstr_line_get_column s column ret_buf sz_buf
]

unfoldable pub get_ip_of_edio24 : BoardList → ℤ → Buffer → ℕ → Option (ℤ × Buffer)
get_ip_of_edio24 lst id ret_buf sz_buf = column_of lst id 0 ret_buf sz_buf

unfoldable pub get_name_of_edio24 : BoardList → ℤ → Buffer → ℕ → Option (ℤ × Buffer)
get_name_of_edio24 lst id ret_buf sz_buf = column_of lst id 2 ret_buf sz_buf

unfoldable pub get_mac_of_edio24 : BoardList → ℤ → Buffer → ℕ → Option (ℤ × Buffer)
get_mac_of_edio24 lst id ret_buf sz_buf = column_of lst id 1 ret_buf sz_buf

-- the pins and the value of an argument; NULL is the empty string, and a failure is not looked at
abbrev pub values_of : Option (List ℕ) → Option (ℕ × ℕ)
values_of none = parse_values_atten [] 0 >>= λ r. some (r.1, r.2)
values_of (some arg) = parse_values_atten arg 0 >>= λ r. some (r.1, r.2)

-- One round of the loop over the clusters at `i`, where its bit is set: nothing is written for a
-- device whose address is not there. `buf` has 200 bytes.
module _ (lst : BoardList) (buf : ℕ → ℕ) (write : Option (List Line)) where
  unfoldable pub cluster : ℕ → Option (List Line)
  cluster i = do
    (ret, b) ← get_ip_of_edio24 lst (pos (i - 1)) (record { cap = 200; byte = buf }) 200
    elim ret [
      | negsuc n ↦ some []
      | pos n ↦ do
        row ← brdlst_get lst (pos (i - 1))
        s ← row
        lines ← write
        some (connect_to s i ∷ lines)
    ]

  -- for (i = 1; i <= 16; i ++), with `left` rounds left
  unfoldable pub clusters : ℕ → ℕ → ℕ → Option (List Line)
  unfolding cluster
  clusters zero i mask_c = some []
  clusters (suc left) i mask_c = do
    here ← (if bit_and mask_c (2 ^ i) == 0 then some [] else cluster i)
    rest ← clusters left (i + 1) mask_c
    some (here ++ rest)

-- do_setpower. The bits 1 to 8 of the argument's mask are the switches 0 to 7.
unfoldable pub do_setpower :
    BoardList → (ℕ → ℕ) → Option (List ℕ) → Option (List ℕ) → Option (List Line)
unfolding clusters
do_setpower lst buf arg_cluster arg_cmd = do
  (mask_c, unused) ← values_of arg_cluster
  (mask_p, val) ← values_of arg_cmd
  clusters lst buf (output_power (power_arg (bit_and mask_p 0x01FF / 2)) >>= λ r. some r.1) 16 1
      (bit_and mask_c 0x1FFFF)

-- do_getpower. The argument is parsed, and its mask not used.
unfoldable pub do_getpower :
    BoardList → (ℕ → ℕ) → Option (List ℕ) → Option (List ℕ) → Option (List Line)
unfolding clusters
do_getpower lst buf arg_cluster arg_cmd = do
  (mask_c, unused) ← values_of arg_cluster
  (mask_p, val) ← values_of arg_cmd
  clusters lst buf (some (output_power_read []).1) 16 1 (bit_and mask_c 0x1FFFF)

-- val1: the first half of the value
abbrev pub half : ℕ → ℕ
half val = val / 2

-- "%d,%d" for one attenuator of two, or "%d" for one of them
abbrev pub both_pins : ℕ → List ℕ
both_pins j = (b'0' + j * 2) ∷ b',' ∷ (b'0' + (j * 2 + 1)) ∷ []

abbrev pub one_pin : ℕ → ℕ → List ℕ
one_pin k j = (b'0' + (j * 2 + k)) ∷ []

-- "v=%d;p=", and the pins of the two positions, the second one's behind a comma
unfoldable pub atten_arg : (ℕ → List ℕ) → ℕ → ℕ → List ℕ
atten_arg pins mask_p val =
    literal "v="
    ++ decimal val (
        literal ";p="
        ++ (if bit_and mask_p 1 == 0 then [] else pins 0)
        ++ (if bit_and mask_p 2 == 0 then [] else b',' ∷ pins 1))

-- the lines for one device: both attenuators of a position at once where the halves are the same,
-- else one after the other. A value of 2 ^ 31 or more, which "%d" shows negative, does not come from
-- the parser.
unfoldable pub atten_lines : ℕ → ℕ → Option (List Line)
unfolding atten_arg
atten_lines mask_p val =
    if half val == val - half val
    then (output_atten (atten_arg both_pins mask_p (half val)) >>= λ r. some r.1)
    else do
      first ← output_atten (atten_arg (one_pin 0) mask_p (half val))
      second ← output_atten (atten_arg (one_pin 1) mask_p (val - half val))
      some (first.1 ++ second.1)

-- do_setatten
unfoldable pub do_setatten :
    BoardList → (ℕ → ℕ) → Option (List ℕ) → Option (List ℕ) → Option (List Line)
unfolding clusters atten_lines
do_setatten lst buf arg_cluster arg_cmd = do
  (mask_c, unused) ← values_of arg_cluster
  (mask_p, val) ← values_of arg_cmd
  clusters lst buf (atten_lines (bit_and mask_p 0x03) val) 16 1 (bit_and mask_c 0x1FFFF)
