-- ===== src/Simulator/Receive/Laws.antt =====
-- What on_tcp_svr_read of utils/edio24sim.c does with the bytes of one read.
use libedio.Base.{
  ◌⊎◌, ℕ, zero, suc, ◌+◌, ◌-◌, ◌*◌, ◌≤◌, ◌<◌, ◌≡◌, refl, sym, arith, some, List, [], ◌++◌, Bool,
  true, false,
}
use libedio.Base.{
  ltb, le→ltb, ltb→lt, ltb→le, Bool-cases, inl, inr, Buffer, IsBytes, copied, copied-IsBytes,
  memmove_lem, pos,
}
use mathlib.Core.Path.{subst}
use libedio.Packet.Read.{offset}
use libedio.Simulator.State.{Device, IsDevice, Message, Turn, sizeof_buffer}
use libedio.Simulator.Process.{svr_process_data}
use libedio.Simulator.Process.Laws.{Blocked}
use libedio.Simulator.Process.Loop.{Ran, Ended, svr_process_data-Ended}
use libedio.Simulator.Receive.{Outcome, returned, sz_copy, push, push_all, on_tcp_svr_read}

-- the device with `n` more bytes
abbrev pub pushed : Buffer → ℕ → ℕ → Device → Device
pushed input sz_processed n d = record d {
  buffer = record d.buffer {
    byte = copied d.buffer.byte d.sz_data (λ i. input.byte (sz_processed + i)) n;
  };
  sz_data = d.sz_data + n;
}

push_lem :
    (input : Buffer) (sz_processed n : ℕ) (d : Device)
    → IsDevice d
    → d.sz_data + n ≤ sizeof_buffer
    → sz_processed + n ≤ input.cap
    → push input sz_processed n d ≡ some (pushed input sz_processed n d)
unfolding push
push_lem input sz_processed n d v h k = rw (
  le→ltb sizeof_buffer d.sz_data v.held,
  memmove_lem d.buffer d.sz_data (offset input sz_processed) n (omega (arith, v.size))
      (omega arith),
)

pushed-IsDevice :
    (input : Buffer) (sz_processed n : ℕ) (d : Device)
    → IsDevice d
    → IsBytes input.byte
    → d.sz_data + n ≤ sizeof_buffer
    → IsDevice (pushed input sz_processed n d)
pushed-IsDevice input sz_processed n d v bytes h = record {
  size = v.size;
  held = h;
  bytes = copied-IsBytes d.buffer.byte d.sz_data _ n v.bytes (λ i. bytes (sz_processed + i));
}

-- The bytes that are pushed at once: no more than are left and fit, and none only where all is full.
sz_copy-left : (left held : ℕ) → held ≤ sizeof_buffer → sz_copy left held ≤ left
sz_copy-left left held h = ground arith

sz_copy-room : (left held : ℕ) → held ≤ sizeof_buffer → held + sz_copy left held ≤ sizeof_buffer
sz_copy-room left held h = ground arith

sz_copy-full :
    (left held : ℕ) → 0 < left → held ≤ sizeof_buffer → sz_copy left held ≤ 0 → held ≡ sizeof_buffer
sz_copy-full left held l h k = ground arith

-- The life of the data during a read: runs take packets and send messages, and received bytes are
-- pushed in their order, from the first to the one before `sz_processed`.
pub data Fed (input : Buffer) (d : Device) : Device → ℕ → List Message → Type 0 where
  start : Fed input d d 0 []
  runs :
      {d' d'' : Device} {n : ℕ} {sent : List Message}
      → Fed input d d' n sent
      → (more : List Message) → Ran d' d'' more
      → Fed input d d'' n (sent ++ more)
  feeds :
      {d' : Device} {n : ℕ} {sent : List Message}
      → Fed input d d' n sent
      → (more : ℕ) → Fed input d (pushed input n more d') (n + more) sent

-- What the handler leaves: a valid device that can serve no more of what it holds, and a connection
-- that is closed only where the buffer is full; otherwise all is pushed.
pub record Received (input : Buffer) (nread : ℕ) (d : Device) (result : Outcome) : Type 0 where
  pub device : Device
  pub sent : List Message
  pub closed : Bool
  pub fed : ℕ
  pub returns : result ≡ returned device sent closed
  pub history : Fed input d device fed sent
  pub within : fed ≤ nread
  pub valid : IsDevice device
  pub blocked : Blocked device
  pub full : ((closed ≡ false) × (fed ≡ nread)) ⊎ (device.sz_data ≡ sizeof_buffer)

module _ (deep : ℕ) (turns : ℕ → ℕ → Turn) (input : Buffer) (nread : ℕ)
    (enough : sizeof_buffer * 70000 + 65543 < deep) (room : nread ≤ input.cap)
    (bytes : IsBytes input.byte) (d₀ : Device) where
  push_all-Received :
      (fuel k : ℕ) (d : Device) (sent : List Message) (sz_processed : ℕ)
      → Fed input d₀ d sz_processed sent
      → IsDevice d
      → Blocked d
      → sz_processed ≤ nread
      → nread < fuel + sz_processed
      → 0 < fuel
      → Received input nread d₀ (push_all fuel deep turns input nread k d sent sz_processed)
  unfolding push_all
  push_all-Received zero k d sent done f v stuck b h l = absurd (omega arith)
  push_all-Received (suc fuel) k d sent done f v stuck b h l = elim (Bool-cases (ltb done nread)) [
    | inr over ↦
        rw (over, push_all)
          (record {
            device = d;
            sent = sent;
            closed = false;
            fed = done;
            returns = refl;
            history = f;
            within = b;
            valid = v;
            blocked = stuck;
            full = inl (refl, omega (arith, ltb→le _ _ over));
          })
    | inl more ↦ elim (Bool-cases (ltb 0 (sz_copy (nread - done) d.sz_data))) [
      | inr none_fits ↦
          rw (more, none_fits, push_all)
            (record {
              device = d;
              sent = sent;
              closed = true;
              fed = done;
              returns = refl;
              history = f;
              within = b;
              valid = v;
              blocked = stuck;
              full = inr (
                  sz_copy-full (nread - done) d.sz_data (omega (arith, ltb→lt _ _ more)) v.held
                    (ltb→le _ _ none_fits));
            })
      | inl some_fit ↦
          let n : ℕ = sz_copy (nread - done) d.sz_data in
          let under : done < nread = ltb→lt _ _ more in
          let at_least : 0 < n = ltb→lt _ _ some_fit in
          let fits : d.sz_data + n ≤ sizeof_buffer = sz_copy-room (nread - done) d.sz_data v.held in
          let there : n ≤ nread - done = sz_copy-left (nread - done) d.sz_data v.held in
          let d' : Device = pushed input done n d in
          let v' : IsDevice d' = pushed-IsDevice input done n d v bytes fits in
          let run : Ended d' [] (svr_process_data deep (turns k) d') =
            svr_process_data-Ended deep (turns k) d' v' (omega arith) in
          let f' : Fed input d₀ run.last.device (done + n) (sent ++ run.last.sent) =
            runs (feeds f n) run.last.sent
              (subst (Ran d' run.last.device) (sym run.sends) run.ran) in
          let rest : Received input nread d₀ (
              push_all fuel deep turns input nread (k + 1) run.last.device (sent ++ run.last.sent)
                (done + n)) =
            push_all-Received fuel (k + 1) run.last.device (sent ++ run.last.sent) (done + n) f'
              run.valid run.blocked (omega arith) (omega arith) (omega arith) in
          rw (more, some_fit, push_lem input done n d v fits (omega arith), run.finishes, push_all)
            rest
    ]
  ]

-- Any number of received bytes above 0 is handled to an end, without a failed assertion or an access
-- outside a buffer: bytes are pushed in their order, and whole packets are taken and answered. The
-- device stays valid and is left with data that it cannot serve as it is; all bytes are pushed and
-- the connection stays open, or the buffer is full of such data.
pub on_tcp_svr_read-Received :
    (fuel deep : ℕ) (turns : ℕ → ℕ → Turn) (d : Device) (n : ℕ) (input : Buffer)
    → IsDevice d
    → IsBytes input.byte
    → suc n ≤ input.cap
    → suc n < fuel
    → sizeof_buffer * 70000 + 65543 < deep
    → Received input (suc n) d (on_tcp_svr_read fuel deep turns d (pos (suc n)) input)
unfolding on_tcp_svr_read
on_tcp_svr_read-Received fuel deep turns d n input v bytes room h enough =
    let first : Ended d [] (svr_process_data deep (turns 0) d) =
      svr_process_data-Ended deep (turns 0) d v (omega (arith, v.held)) in
    rw (first.finishes, on_tcp_svr_read)
      (push_all-Received deep turns input (suc n) enough room bytes d fuel 1 first.last.device
        first.last.sent 0
        (runs start first.last.sent (subst (Ran d first.last.device) (sym first.sends) first.ran))
        first.valid first.blocked (omega arith) (omega arith) (omega arith))
