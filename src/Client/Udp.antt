-- ===== src/Client/Udp.antt =====
-- edio24_cli_verify_udp of src/libedio24.c. What is printed is not modelled; the reads for it are.
pub mod Laws
use libedio.Base.{ℕ, zero, suc, ◌+◌, ◌-◌, Option, none, some, ltb, ◌==◌, if◌then◌else◌, ◌>>=◌, not}
use libedio.Base.{Buffer, load, ℤ, pos, negsuc}

-- the reads of the bytes from index `i` on
pub load_each : Buffer → ℕ → ℕ → Option ℕ
load_each b zero i = some 0
load_each b (suc left) i = load b i >>= λ _. load_each b left (i + 1)

-- printf ("%s", &buffer_in[i]) reads up to the first zero byte, however far that is; there are
-- `left` bytes to find it in.
pub read_cstr : Buffer → ℕ → ℕ → Option ℕ
read_cstr b zero i = none
read_cstr b (suc left) i =
    load b i >>= λ v. (let rest = read_cstr b left (i + 1) in if v == 0 then some i else rest)

-- MAC, product, firmware, name, port, status, address and bootloader
pub print_device : Buffer → Option ℤ
unfolding load_each read_cstr
print_device b = do
  _ids ← load_each b 10 1
  _name ← read_cstr b (b.cap - 11) 11
  _port ← load_each b 2 27
  _rest ← load_each b 8 33
  some (pos 0)

unfoldable pub cli_verify_udp : Option Buffer → ℕ → Option ℤ
unfolding print_device
cli_verify_udp none sz_in = some (negsuc 0)
cli_verify_udp (some b) sz_in =
    if ltb sz_in 64
    then some (negsuc 0)
    else load b 0 >>= λ first. if not (first == b'D') then some (negsuc 1) else print_device b
