-- ===== src/Packet/Request/Rejects.antt =====
-- What each request builder of src/libedio24.c does without a buffer, without a frame number or with
-- too small a size, and what a memory write does with a size that its own test lets through.
use libedio.Base.{
  ℕ, suc, zero, ◌+◌, ◌≤◌, ◌<◌, ◌≡◌, refl, arith, Option, some, none, Buffer, lt→ltb, le→ltb, ◌>>=◌,
}
use libedio.Base.{memmove}
use libedio.Packet.Frame.{Created, reject, retag}
use libedio.Packet.Create.{
  move_data, create_cmd_dinr, create_cmd_firmware, create_cmd_blinkled, create_cmd_confmemr,
  create_cmd_doutw, create_cmd_confmemw, create_cmd_doutr, create_cmd_dconfr, create_cmd_dcounterr,
  create_cmd_dcounterw, create_cmd_reset, create_cmd_status, create_cmd_netconf, create_cmd_dconfw,
  create_cmd_usermemr, create_cmd_usermemw, create_cmd_setmemr, create_cmd_setmemw,
  create_cmd_bootmemr, create_cmd_bootmemw,
}
use libedio.Packet.Request.{
  Area, conf, user, settings, boot, Request, din, doutr, dconfr, counterr, counterw, reset, status,
  netconf, firmware, doutw, dconfw, blinkled, memr, memw, build, build_memr, build_memw, data_count,
}

-- The size that a builder tests for: that of the packet, but for a memory write that of an empty one.
abbrev pub least : Request → ℕ
least (memw area address count src) = 9
least r = 7 + data_count r

-- Why a builder returns at once.
pub data Refused (size : ℕ) : Option Buffer → ℕ → Option ℕ → Type 0 where
  no_buffer : (sz_buf : ℕ) (frame_id : Option ℕ) → Refused size none sz_buf frame_id
  no_frame : (b : Buffer) (sz_buf : ℕ) → Refused size (some b) sz_buf none
  too_small :
      (b : Buffer) (sz_buf frame : ℕ) → sz_buf < size → Refused size (some b) sz_buf (some frame)

dinr-Refused :
    (b : Option Buffer) (sz : ℕ) (f : Option ℕ)
    → Refused 7 b sz f
    → create_cmd_dinr b sz f ≡ reject b f
unfolding create_cmd_dinr
dinr-Refused _ _ _ (no_buffer sz f) = refl
dinr-Refused _ _ _ (no_frame b sz) = refl
dinr-Refused _ _ _ (too_small b sz frame h) = rw (lt→ltb sz 7 h)

firmware-Refused :
    (b : Option Buffer) (sz : ℕ) (f : Option ℕ)
    → Refused 9 b sz f
    → create_cmd_firmware b sz f ≡ reject b f
unfolding create_cmd_firmware
firmware-Refused _ _ _ (no_buffer sz f) = refl
firmware-Refused _ _ _ (no_frame b sz) = refl
firmware-Refused _ _ _ (too_small b sz frame h) = rw (lt→ltb sz 9 h)

blinkled-Refused :
    (b : Option Buffer) (sz : ℕ) (f : Option ℕ) (value : ℕ)
    → Refused 8 b sz f
    → create_cmd_blinkled b sz f value ≡ reject b f
unfolding create_cmd_blinkled
blinkled-Refused _ _ _ value (no_buffer sz f) = refl
blinkled-Refused _ _ _ value (no_frame b sz) = refl
blinkled-Refused _ _ _ value (too_small b sz frame h) = rw (lt→ltb sz 8 h)

doutw-Refused :
    (b : Option Buffer) (sz : ℕ) (f : Option ℕ) (mask value : ℕ)
    → Refused 13 b sz f
    → create_cmd_doutw b sz f mask value ≡ reject b f
unfolding create_cmd_doutw
doutw-Refused _ _ _ mask value (no_buffer sz f) = refl
doutw-Refused _ _ _ mask value (no_frame b sz) = refl
doutw-Refused _ _ _ mask value (too_small b sz frame h) = rw (lt→ltb sz 13 h)

confmemr-Refused :
    (b : Option Buffer) (sz : ℕ) (f : Option ℕ) (address count : ℕ)
    → Refused 11 b sz f
    → create_cmd_confmemr b sz f address count ≡ reject b f
unfolding create_cmd_confmemr
confmemr-Refused _ _ _ address count (no_buffer sz f) = refl
confmemr-Refused _ _ _ address count (no_frame b sz) = refl
confmemr-Refused _ _ _ address count (too_small b sz frame h) = rw (lt→ltb sz 11 h)

confmemw-Refused :
    (b : Option Buffer) (sz : ℕ) (f : Option ℕ) (address count : ℕ) (src : Option Buffer)
    → Refused 9 b sz f
    → create_cmd_confmemw b sz f address count src ≡ reject b f
unfolding create_cmd_confmemw
confmemw-Refused _ _ _ address count src (no_buffer sz f) = refl
confmemw-Refused _ _ _ address count src (no_frame b sz) = refl
confmemw-Refused _ _ _ address count src (too_small b sz frame h) = rw (lt→ltb sz 9 h)

retag_rejected :
    (cmd : ℕ) (result : Option Created) (b : Option Buffer) (f : Option ℕ)
    → result ≡ reject b f
    → (result >>= retag cmd) ≡ reject b f
unfolding retag
retag_rejected cmd result b f e = rw e

memr-Refused :
    (area : Area) (b : Option Buffer) (sz : ℕ) (f : Option ℕ) (address count : ℕ)
    → Refused 11 b sz f
    → build_memr area b sz f address count ≡ reject b f
unfolding build_memr create_cmd_usermemr create_cmd_setmemr create_cmd_bootmemr
memr-Refused conf b sz f a n h = confmemr-Refused b sz f a n h
memr-Refused user b sz f a n h = retag_rejected _ _ b f (confmemr-Refused b sz f a n h)
memr-Refused settings b sz f a n h = retag_rejected _ _ b f (confmemr-Refused b sz f a n h)
memr-Refused boot b sz f a n h = retag_rejected _ _ b f (confmemr-Refused b sz f a n h)

memw-Refused :
    (area : Area) (b : Option Buffer) (sz : ℕ) (f : Option ℕ) (address count : ℕ)
    (src : Option Buffer)
    → Refused 9 b sz f
    → build_memw area b sz f address count src ≡ reject b f
unfolding build_memw create_cmd_usermemw create_cmd_setmemw create_cmd_bootmemw
memw-Refused conf b sz f a n src h = confmemw-Refused b sz f a n src h
memw-Refused user b sz f a n src h = retag_rejected _ _ b f (confmemw-Refused b sz f a n src h)
memw-Refused settings b sz f a n src h = retag_rejected _ _ b f (confmemw-Refused b sz f a n src h)
memw-Refused boot b sz f a n src h = retag_rejected _ _ b f (confmemw-Refused b sz f a n src h)

-- Without a buffer, without a frame number, or with a size below the one that it tests for, every
-- request builder returns -1 and changes neither the buffer nor the frame number.
pub build-Refused :
    (r : Request) (b : Option Buffer) (sz : ℕ) (f : Option ℕ)
    → Refused (least r) b sz f
    → build r b sz f ≡ reject b f
unfolding build create_cmd_doutr create_cmd_dconfr create_cmd_dcounterr create_cmd_dcounterw
    create_cmd_reset create_cmd_status create_cmd_netconf create_cmd_dconfw
build-Refused din b sz f h = dinr-Refused b sz f h
build-Refused doutr b sz f h = retag_rejected _ _ b f (dinr-Refused b sz f h)
build-Refused dconfr b sz f h = retag_rejected _ _ b f (dinr-Refused b sz f h)
build-Refused counterr b sz f h = retag_rejected _ _ b f (dinr-Refused b sz f h)
build-Refused counterw b sz f h = retag_rejected _ _ b f (dinr-Refused b sz f h)
build-Refused reset b sz f h = retag_rejected _ _ b f (dinr-Refused b sz f h)
build-Refused status b sz f h = retag_rejected _ _ b f (dinr-Refused b sz f h)
build-Refused netconf b sz f h = retag_rejected _ _ b f (dinr-Refused b sz f h)
build-Refused firmware b sz f h = firmware-Refused b sz f h
build-Refused (doutw mask value) b sz f h = doutw-Refused b sz f mask value h
build-Refused (dconfw mask value) b sz f h =
    retag_rejected _ _ b f (doutw-Refused b sz f mask value h)
build-Refused (blinkled value) b sz f h = blinkled-Refused b sz f value h
build-Refused (memr area a n) b sz f h = memr-Refused area b sz f a n h
build-Refused (memw area a n src) b sz f h = memw-Refused area b sz f a n (some src) h

pub confmemw-overrun :
    (b src : Buffer) (sz_buf frame address count : ℕ)
    → 9 ≤ sz_buf
    → b.cap < 8 + count
    → 1 ≤ count
    → create_cmd_confmemw (some b) sz_buf (some frame) address count (some src) ≡ none
unfolding create_cmd_confmemw move_data memmove
confmemw-overrun b src sz_buf frame address zero h k l = absurd (omega arith)
confmemw-overrun b src sz_buf frame address (suc n) h k l =
    rw (le→ltb sz_buf 9 h, lt→ltb b.cap (8 + suc n) k)

-- A memory write tests its size for nine bytes at any count: with data that does not fit the buffer,
-- and a size of nine or more, it writes behind the buffer, for each of the four memories.
pub build-overrun :
    (area : Area) (b src : Buffer) (sz_buf frame address count : ℕ)
    → 9 ≤ sz_buf
    → b.cap < 8 + count
    → 1 ≤ count
    → build (memw area address count src) (some b) sz_buf (some frame) ≡ none
unfolding build build_memw create_cmd_usermemw create_cmd_setmemw create_cmd_bootmemw
build-overrun conf b src sz_buf frame address count h k l =
    confmemw-overrun b src sz_buf frame address count h k l
build-overrun user b src sz_buf frame address count h k l =
    rw (confmemw-overrun b src sz_buf frame address count h k l)
build-overrun settings b src sz_buf frame address count h k l =
    rw (confmemw-overrun b src sz_buf frame address count h k l)
build-overrun boot b src sz_buf frame address count h k l =
    rw (confmemw-overrun b src sz_buf frame address count h k l)
