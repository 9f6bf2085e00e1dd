-- ===== src/Server/Udp.antt =====
-- edio24_svr_process_udp of src/libedio24.c: the replies to the open and discovery messages.
pub mod Laws
use libedio.Base.{ℕ, ◌+◌, ◌-◌, Option, none, some, List, [], ◌∷◌, Bool, true, false}
use libedio.Base.{
  Buffer, load, store, store_all, memset, ℤ, pos, negsuc, ltb, ◌==◌, if◌then◌else◌, ◌>>=◌,
}

-- What the pointers of a call show.
pub record Datagram : Type 0 where
  pub buffer_out : Option Buffer
  pub sz_out : Option ℕ
  pub sz_needed_out : Option ℕ

abbrev pub Result : Type 0
Result = Option (ℤ × Datagram)

-- 'C': open the device
pub open_device : Bool → Buffer → ℕ → Datagram → Result
open_device force_fail out sz_out d =
    if ltb sz_out 2 then some (pos 1, record d { sz_needed_out = some (2 - sz_out) }) else do
      out₁ ← store_all out ((0, b'C') ∷ (1, 0) ∷ [])
      out₂ ← (if force_fail then store out₁ 1 1 else some out₁)
      some (pos 0, record d { buffer_out = some out₂; sz_out = some 2; sz_needed_out = some 0 })

-- strcpy ((char *)(buffer_out + 11), "E-DIO24-XXXXXX")
abbrev pub netbios_name : List (ℕ × ℕ)
netbios_name =
    (11, b'E')
    ∷ (12, b'-')
    ∷ (13, b'D')
    ∷ (14, b'I')
    ∷ (15, b'O')
    ∷ (16, b'2')
    ∷ (17, b'4')
    ∷ (18, b'-')
    ∷ (19, b'X')
    ∷ (20, b'X')
    ∷ (21, b'X')
    ∷ (22, b'X')
    ∷ (23, b'X')
    ∷ (24, b'X')
    ∷ (25, 0)
    ∷ []

-- the description of the device: MAC, product, firmware, name, port, status, address, bootloader
pub describe : Buffer → Option Buffer
describe out = do
  b₀ ← memset out 0 0 64
  b₁ ← store b₀ 0 b'D'
  b₂ ← memset b₁ 1 0x01 6
  b₃ ← memset b₂ 7 0x02 2
  b₄ ← memset b₃ 9 0x03 2
  b₅ ← store_all b₄ netbios_name
  b₆ ← memset b₅ 27 0x04 2
  b₇ ← memset b₆ 29 0x05 4
  b₈ ← memset b₇ 33 0x06 2
  b₉ ← memset b₈ 35 0x07 4
  memset b₉ 39 0x08 2

-- 'D': discover devices
pub discover : Bool → Buffer → ℕ → Datagram → Result
unfolding describe
discover force_fail out sz_out d =
    if force_fail
    then some (pos 0, record d { sz_out = some 0; sz_needed_out = some 0 })
    else if ltb sz_out 64
    then some (pos 1, record d { sz_needed_out = some (64 - sz_out) })
    else do
      out' ← describe out
      some (pos 0, record d { buffer_out = some out'; sz_out = some 64; sz_needed_out = some 0 })

-- behind the tests of the pointers
pub process : Bool → Buffer → ℕ → Buffer → ℕ → Datagram → Result
unfolding open_device discover
process force_fail b sz_in out sz_out d = if ltb sz_in 1 then some (pos 1, d) else do
  first ← load b 0
  (if first == b'C'
      then open_device force_fail out sz_out d
      else if first == b'D'
      then discover force_fail out sz_out d
      else some (pos 0, d))

-- the tests of the pointers, in the source's order
checked : Bool → Buffer → ℕ → Option Buffer → Option ℕ → Option ℕ → Datagram → Result
unfolding process
checked force_fail b sz_in none sz_out needed d = some (negsuc 0, d)
checked force_fail b sz_in (some out) none needed d = some (negsuc 0, d)
checked force_fail b sz_in (some out) (some sz_out) none d = some (negsuc 0, d)
checked force_fail b sz_in (some out) (some sz_out) (some _) d =
    process force_fail b sz_in out sz_out d

unfoldable pub svr_process_udp : Bool → Option Buffer → ℕ → Datagram → Result
unfolding checked
svr_process_udp force_fail none sz_in d = some (negsuc 0, d)
svr_process_udp force_fail (some b) sz_in d =
    checked force_fail b sz_in d.buffer_out d.sz_out d.sz_needed_out d
