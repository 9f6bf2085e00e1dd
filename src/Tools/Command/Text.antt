-- ===== src/Tools/Command/Text.antt =====
-- What fprintf of utils/gencctcmd.c makes of the lines that it writes for a device.
use libedio.Base.{ℕ, ◌+◌, List, [], ◌∷◌, ◌++◌}
use libedio.Text.{literal}
use libedio.Text.Print.{hex_digits, hex_width, decimal}
use libedio.Tools.Command.{Line, dconfig_w, dout_w, dout_r, blank, sleep, connect_to}

-- "0x%06X", before what follows
abbrev pub print_hex : ℕ → List ℕ → List ℕ
print_hex n rest = literal "0x" ++ hex_digits (hex_width n) n rest

-- A line without its newline. The only pause that is written is "Sleep 1", of one digit.
abbrev pub line_body : Line → List ℕ → List ℕ
line_body (dconfig_w mask value) rest =
    literal "DConfigW " ++ print_hex mask (b' ' ∷ print_hex value rest)
line_body (dout_w mask value) rest =
    literal "DOutW " ++ print_hex mask (b' ' ∷ print_hex value rest)
line_body dout_r rest = literal "DOutR" ++ rest
line_body blank rest = rest
line_body (sleep n) rest = literal "Sleep " ++ (b'0' + n) ∷ rest
line_body (connect_to s i) rest =
    literal "# ConnectTo " ++ (s ++ b' ' ∷ b'#' ∷ b' ' ∷ decimal i rest)

-- a file of such lines
unfoldable pub file_text : List Line → List ℕ
file_text [] = []
file_text (l ∷ lines) = line_body l (b'\n' ∷ file_text lines)
