-- ===== src/Server/Tcp/Laws.antt =====
-- How the parts of edio24_svr_process_tcp of src/libedio24.c behave: the data of the reply, the
-- switch, and the reply itself.
use libedio.Base.{ℕ, zero, suc, ◌+◌, ◌%◌, ◌^◌, ◌≤◌, ◌<◌, ◌≡◌, ◌⊎◌, inl, inr, refl, arith}
use libedio.Base.{
  ltb→lt, ltb→le, Option, some, Bool, true, false, ltb, ◌||◌, if◌then◌else◌, Bool-cases,
}
use mathlib.Core.Option.{some-injective}
use libedio.Base.{
  sym, ap, ◌∙◌, Buffer, IsBytes, update-IsBytes, load_lem, store_lem, update, ℤ, pos,
}
use libedio.Protocol.{msg_error_parameter}
use libedio.Packet.Format.{IsPacket}
use libedio.Packet.Read.Laws.{little_endian, read_value_total, read_value_lem}
use libedio.Packet.Verify.Laws.{IsWhole}
use libedio.Packet.Respond.Laws.{
  replied, create_respond_lem, create_respond-short, replied-IsPacket, replied-IsBytes,
}
use libedio.Server.Tcp.{
  Pointers, Chance, Case, pins, pin_write, plain, counter, status_word, network, boot, led,
  unsupported, ranged, Switched, out_of_range, switch, fill, reply,
}

-- What `fill` leaves: the bytes 1, 2, 3 … as the data from `i` on, and all else as it was.
pub record Filled (b : Buffer) (left i : ℕ) (result : Option Buffer) : Type 0 where
  pub m : ℕ → ℕ
  pub returns : result ≡ some (record b { byte = m })
  pub written : (j : ℕ) → i ≤ j → j < i + left → m (6 + j) ≡ (1 + j) % 256
  pub kept : (j : ℕ) → j < 6 + i → m j ≡ b.byte j
  pub bytes : IsBytes b.byte → IsBytes m

pub fill-Filled : (b : Buffer) (left i : ℕ) → 6 + i + left ≤ b.cap → Filled b left i (fill b left i)
unfolding fill
fill-Filled b zero i h = record {
  m = b.byte;
  returns = refl;
  written = λ j p q. absurd (omega arith);
  kept = λ j p. refl;
  bytes = λ h. h;
}
fill-Filled b (suc left) i h =
    let b' = record b { byte = update b.byte (6 + i) ((1 + i) % 256 % 256) } in
    let rest = fill-Filled b' left (i + 1) (omega arith) in
    rw (store_lem b (6 + i) ((1 + i) % 256) (omega arith)) (record {
      m = rest.m;
      returns = rest.returns;
      written = λ j p q. ground (arith, rest.written j, rest.kept (6 + j));
      kept = λ j p. ground (arith, rest.kept j);
      bytes = λ h. rest.bytes (update-IsBytes b.byte (6 + i) _ h (omega arith));
    })

abbrev pub is_supported : Case → Bool
is_supported unsupported = false
is_supported pins = true
is_supported k = true

-- The cases of a reply without data: the writes, the configuration of the pins and the commands that
-- have no arguments and no answer.
abbrev pub is_bare : Case → Bool
is_bare plain = true
is_bare pin_write = true
is_bare led = true
is_bare k = false

len_data_of : (t s : Switched) → some t ≡ some s → s.len_data ≡ t.len_data
len_data_of t s e = sym (ap (λ (x : Switched). x.len_data) (some-injective t s e))

-- The switch never faults, and tells the commands of the simulator from all others.
pub switch_total :
    (k : Case) (b : Buffer) (sz_in : ℕ) (c : Chance) (status : ℕ)
    → IsBytes b.byte
    → sz_in ≤ b.cap
    → sz_in < 2 ^ 64
    → (s : Switched) × (switch k b sz_in c status ≡ some s)
      × (s.supported ≡ is_supported k)
      × (s.len_data < 2 ^ 16)
      × ((s.status ≡ status) ⊎ ((s.status ≡ msg_error_parameter) × (s.len_data ≡ 0)))
unfolding switch
switch_total pins b sz_in c status h room big = (_, refl, refl, omega arith, inl refl)
switch_total plain b sz_in c status h room big = (_, refl, refl, omega arith, inl refl)
switch_total counter b sz_in c status h room big = (_, refl, refl, omega arith, inl refl)
switch_total status_word b sz_in c status h room big = (_, refl, refl, omega arith, inl refl)
switch_total network b sz_in c status h room big = (_, refl, refl, omega arith, inl refl)
switch_total unsupported b sz_in c status h room big = (_, refl, refl, omega arith, inl refl)
switch_total pin_write b sz_in c status h room big =
    let mask = read_value_total b sz_in 0 3 0 h room big (omega arith) (omega arith) in
    let value = read_value_total b sz_in 3 3 0 h room big (omega arith) (omega arith) in
    rw (mask.2, value.2) (_, refl, refl, omega arith, inl refl)
switch_total boot b sz_in c status h room big =
    let sz_data = read_value_total b sz_in 2 2 c.sz_data h room big (omega arith) (omega arith) in
    rw sz_data.2 (_, refl, refl, omega arith, inl refl)
switch_total led b sz_in c status h room big =
    let value = read_value_total b sz_in 0 1 0 h room big (omega arith) (omega arith) in
    rw value.2 (_, refl, refl, omega arith, inl refl)
switch_total (ranged max_address) b sz_in c status h room big =
    let address = read_value_total b sz_in 0 2 c.address h room big (omega arith) (omega arith) in
    let sz_data = read_value_total b sz_in 2 2 c.sz_data h room big (omega arith) (omega arith) in
    rw (address.2, sz_data.2)
      (elim (Bool-cases (out_of_range max_address address.1 sz_data.1)) [
        | inl bad ↦ rw bad (_, refl, refl, omega arith, inr (refl, refl))
        | inr good ↦ rw good (_, refl, refl, omega arith, inl refl)
      ])

-- Such a case asks for no data, however short the request.
pub switch-bare :
    (k : Case) (b : Buffer) (sz_in : ℕ) (c : Chance) (status : ℕ) (s : Switched)
    → IsBytes b.byte
    → sz_in ≤ b.cap
    → sz_in < 2 ^ 64
    → is_bare k ≡ true
    → switch k b sz_in c status ≡ some s
    → s.len_data ≡ 0
unfolding switch
switch-bare plain b sz_in c status s h room big bare e = len_data_of _ s e
switch-bare pin_write b sz_in c status s h room big bare e =
    let mask = read_value_total b sz_in 0 3 0 h room big (omega arith) (omega arith) in
    let value = read_value_total b sz_in 3 3 0 h room big (omega arith) (omega arith) in
    len_data_of (record { supported = true; status = status; len_data = 0 }) s
      ((sym (rw (mask.2, value.2))) ∙ e)
switch-bare led b sz_in c status s h room big bare e =
    let value = read_value_total b sz_in 0 1 0 h room big (omega arith) (omega arith) in
    len_data_of (record { supported = true; status = status; len_data = 0 }) s
      ((sym (rw value.2)) ∙ e)
switch-bare pins b sz_in c status s h room big bare e = cc
switch-bare counter b sz_in c status s h room big bare e = cc
switch-bare status_word b sz_in c status s h room big bare e = cc
switch-bare network b sz_in c status s h room big bare e = cc
switch-bare boot b sz_in c status s h room big bare e = cc
switch-bare (ranged max_address) b sz_in c status s h room big bare e = cc
switch-bare unsupported b sz_in c status s h room big bare e = cc

-- The status and the data size with which a whole request is answered.
abbrev pub answer_to : Case → (ℕ → ℕ) → ℕ → Switched
answer_to pins m status = record { supported = true; status = status; len_data = 3 }
answer_to counter m status = record { supported = true; status = status; len_data = 4 }
answer_to status_word m status = record { supported = true; status = status; len_data = 2 }
answer_to network m status = record { supported = true; status = status; len_data = 12 }
answer_to boot m status = record {
  supported = true;
  status = status;
  len_data = little_endian m 8 2;
}
answer_to (ranged max_address) m status =
    let address = little_endian m 6 2 in
    let count = little_endian m 8 2 in
    if ltb count 1 || ltb 1024 count || ltb max_address (address + count)
    then record { supported = true; status = msg_error_parameter; len_data = 0 }
    else record { supported = true; status = status; len_data = count }
answer_to unsupported m status = record { supported = false; status = status; len_data = 0 }
answer_to k m status = record { supported = true; status = status; len_data = 0 }

-- With a whole packet and at least eleven bytes in the buffer, the switch finds the answer that the
-- request asks for. A read of the configuration, user or settings memory is refused where it is empty,
-- longer than 1024 bytes, or where address and count together exceed the largest address; one of the
-- boot memory never is.
pub switch_whole :
    (k : Case) (b : Buffer) (sz_in : ℕ) (c : Chance) (status : ℕ)
    → IsBytes b.byte
    → sz_in ≤ b.cap
    → sz_in < 2 ^ 64
    → IsWhole b.byte sz_in
    → 11 ≤ sz_in
    → switch k b sz_in c status ≡ some (answer_to k b.byte status)
unfolding switch
switch_whole pins b sz_in c status h room big w long = refl
switch_whole plain b sz_in c status h room big w long = refl
switch_whole counter b sz_in c status h room big w long = refl
switch_whole status_word b sz_in c status h room big w long = refl
switch_whole network b sz_in c status h room big w long = refl
switch_whole unsupported b sz_in c status h room big w long = refl
switch_whole pin_write b sz_in c status h room big w long =
    let mask = read_value_total b sz_in 0 3 0 h room big (omega arith) (omega arith) in
    let value = read_value_total b sz_in 3 3 0 h room big (omega arith) (omega arith) in
    rw (mask.2, value.2)
switch_whole led b sz_in c status h room big w long =
    let value = read_value_total b sz_in 0 1 0 h room big (omega arith) (omega arith) in rw value.2
switch_whole boot b sz_in c status h room big w long =
    rw (read_value_lem b sz_in 2 2 c.sz_data h room big w (omega arith) long)
      (ground (arith, h 8, h 9))
switch_whole (ranged max_address) b sz_in c status h room big w long =
    rw
      (
        read_value_lem b sz_in 0 2 c.address h room big w (omega arith) (omega arith),
        read_value_lem b sz_in 2 2 c.sz_data h room big w (omega arith) long,
      )
      (ground (arith, h 6, h 7, h 8, h 9))

-- The contents of a reply: a packet, or data behind a header that holds what was there before.
pub data Content (m before : ℕ → ℕ) (cmd frame status len : ℕ) : Type 0 where
  complete : len < 2 → IsPacket m cmd frame status len → Content m before cmd frame status len
  headless :
      2 ≤ len
      → ((i : ℕ) → i < 6 → m i ≡ before i)
      → ((i : ℕ) → i < len → m (6 + i) ≡ (1 + i) % 256)
      → Content m before cmd frame status len

-- What a call of `reply` leaves in `buffer_out`. A reply with at most one data byte is a packet. A
-- longer one does not fit the eight bytes that `sizeof (buffer_out)` gives: its header is never
-- written, and holds what the caller had there.
pub record Replied (b out : Buffer) (cmd count status len : ℕ) (p : Pointers)
    (result : Option (ℤ × Pointers)) : Type 0 where
  pub m : ℕ → ℕ
  pub returns :
      result
      ≡ some (
        pos 0,
        record p {
          buffer_out = some (record out { byte = m });
          sz_processed = some (7 + count);
          sz_out = some (7 + len);
        },
      )
  pub bytes : IsBytes out.byte → IsBytes m
  pub content : Content m out.byte (cmd + 128) (b.byte 2) status len

reply_short :
    (b out : Buffer) (cmd count status len : ℕ) (p : Pointers)
    → IsBytes b.byte
    → 3 ≤ b.cap
    → 7 + len ≤ out.cap
    → len < 2
    → cmd < 128
    → status < 256
    → Replied b out cmd count status len p (reply b cmd count status len (some out) p)
unfolding reply
reply_short b out cmd count status len p h room fits few small st =
    let f = fill-Filled out len 0 (omega arith) in
    let out₁ = record out { byte = f.m } in
    record {
      m = replied f.m cmd (b.byte 2) status len f.m;
      returns = rw (
        f.returns,
        load_lem b 2 room,
        create_respond_lem out₁ out₁ 8 cmd (b.byte 2) status len (omega arith) fits (omega arith)
            (omega arith),
      );
      bytes = λ o. replied-IsBytes f.m cmd (b.byte 2) status len f.m (f.bytes o) (f.bytes o);
      content = complete few (replied-IsPacket f.m cmd (b.byte 2) status len f.m small (h 2) st);
    }

reply_long :
    (b out : Buffer) (cmd count status len : ℕ) (p : Pointers)
    → 3 ≤ b.cap
    → 7 + len ≤ out.cap
    → 2 ≤ len
    → len < 2 ^ 16
    → Replied b out cmd count status len p (reply b cmd count status len (some out) p)
unfolding reply
reply_long b out cmd count status len p room fits many small =
    let f = fill-Filled out len 0 (omega arith) in
    let out₁ = record out { byte = f.m } in
    record {
      m = f.m;
      returns = rw (
        f.returns,
        load_lem b 2 room,
        create_respond-short out₁ (some out₁) 8 cmd (b.byte 2) status len (omega arith)
            (omega arith),
      );
      bytes = f.bytes;
      content =
          headless many (λ i below. f.kept i (omega arith))
            (λ i below. f.written i (omega arith) (omega arith));
    }

pub reply-Replied :
    (b out : Buffer) (cmd count status len : ℕ) (p : Pointers)
    → IsBytes b.byte
    → 3 ≤ b.cap
    → 7 + len ≤ out.cap
    → len < 2 ^ 16
    → cmd < 128
    → status < 256
    → Replied b out cmd count status len p (reply b cmd count status len (some out) p)
reply-Replied b out cmd count status len p h room fits small low st =
    elim (Bool-cases (ltb len 2)) [
      | inl few ↦ reply_short b out cmd count status len p h room fits (ltb→lt _ _ few) low st
      | inr many ↦ reply_long b out cmd count status len p room fits (ltb→le _ _ many) small
    ]
