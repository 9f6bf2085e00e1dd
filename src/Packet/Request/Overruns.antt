-- ===== src/Packet/Request/Overruns.antt =====
-- The memory writes of src/libedio24.c in a buffer that is too small for their data.
use libedio.Base.{
  ℕ, suc, ◌+◌, ◌≤◌, ◌<◌, ◌≡◌, refl, arith, none, some, inl, inr, Bool-cases, List, [], ◌∷◌,
}
use libedio.Base.{
  Buffer, ltb, ltb→lt, ltb→le, le→ltb, store-none, memmove_lem, store_all_lem, copied, write_all,
}
use libedio.Protocol.{cmd_conf_mem_w}
use libedio.Packet.Checksum.{pkt_checksum_lem}
use libedio.Packet.Frame.{header, finish, low_byte, byte_from}
use libedio.Packet.Create.{
  move_data, create_cmd_confmemw, create_cmd_usermemw, create_cmd_setmemw, create_cmd_bootmemw,
}
use libedio.Packet.Request.Rejects.{confmemw-overrun}
use libedio.Packet.Request.{Area, conf, user, settings, boot, build_memw}

-- The checksum has no room.
finish-none : (b : Buffer) (frame count : ℕ) → 6 + count ≡ b.cap → finish b frame count ≡ none
unfolding finish
finish-none b frame count e =
    rw
      (
        store_all_lem b (header frame count) (omega arith),
        pkt_checksum_lem (record b { byte = write_all b.byte (header frame count) }) (6 + count)
            (omega arith),
        store-none (record b { byte = write_all b.byte (header frame count) }) (6 + count) _
            (omega arith),
      )
      refl

-- the assignments of the command and the address
abbrev write_head : ℕ → List (ℕ × ℕ)
write_head address = (1, cmd_conf_mem_w) ∷ (6, low_byte address) ∷ (7, byte_from 8 address) ∷ []

confmemw-none :
    (b src : Buffer) (sz_buf frame address n : ℕ)
    → 9 ≤ sz_buf
    → sz_buf ≤ b.cap
    → b.cap < 9 + suc n
    → suc n ≤ src.cap
    → create_cmd_confmemw (some b) sz_buf (some frame) address (suc n) (some src) ≡ none
unfolding create_cmd_confmemw move_data
confmemw-none b src sz_buf frame address n fits room long there =
    elim (Bool-cases (ltb b.cap (8 + suc n))) [
      | inl no_room ↦
          confmemw-overrun b src sz_buf frame address (suc n) fits (ltb→lt _ _ no_room)
            (omega arith)
      | inr moved ↦
          let b₁ : Buffer = record b { byte = copied b.byte 8 src.byte (suc n) } in
          rw
            (
              le→ltb sz_buf 9 fits,
              memmove_lem b 8 src (suc n) (ltb→le _ _ moved) there,
              store_all_lem b₁ (write_head address) (omega arith),
            )
            (finish-none (record b₁ { byte = write_all b₁.byte (write_head address) }) frame
              (2 + suc n) (omega (arith, ltb→le _ _ moved)))
    ]

-- A builder of a memory write faults where its data are there and the buffer passes the size test,
-- but has no room for the packet.
pub build_memw-none :
    (area : Area) (b src : Buffer) (sz_buf frame address n : ℕ)
    → 9 ≤ sz_buf
    → sz_buf ≤ b.cap
    → b.cap < 9 + suc n
    → suc n ≤ src.cap
    → build_memw area (some b) sz_buf (some frame) address (suc n) (some src) ≡ none
unfolding build_memw create_cmd_usermemw create_cmd_setmemw create_cmd_bootmemw
build_memw-none conf b src sz_buf frame address n fits room long there =
    confmemw-none b src sz_buf frame address n fits room long there
build_memw-none user b src sz_buf frame address n fits room long there =
    rw (confmemw-none b src sz_buf frame address n fits room long there) refl
build_memw-none settings b src sz_buf frame address n fits room long there =
    rw (confmemw-none b src sz_buf frame address n fits room long there) refl
build_memw-none boot b src sz_buf frame address n fits room long there =
    rw (confmemw-none b src sz_buf frame address n fits room long there) refl
