-- ===== src/Exchange/Conversation/Requests.antt =====
-- What the client of utils/edio24cli.c writes to a connection for a file of the generator's lines.
use libedio.Base.{
  ℕ, ◌+◌, ◌%◌, ◌^◌, ◌<◌, ◌≡◌, ◌∙◌, ◌⊎◌, refl, sym, ap, arith, inl, inr, true, some, List, [], ◌∷◌,
  ◌++◌,
}
use mathlib.Core.Option.{some-injective}
use mathlib.Core.Path.{subst}
use libedio.Protocol.{cmd_dout_w, cmd_dconf_w}
use libedio.Text.{length}
use libedio.Util.Strip.{byte_of}
use libedio.Packet.Format.{IsPacket}
use libedio.Packet.Request.{Request, opcode, data_count, dconfw, doutw}
use libedio.Server.Tcp.{case_of}
use libedio.Stream.{bytes_of, join, AllBytes, AllBytes-append, bytes_of-AllBytes}
use libedio.Stream.Frames.{IsFrame, AllFrames, AllFit, packet-IsFrame}
use libedio.Tools.Command.{Line, dconfig_w, dout_w, dout_r, blank, sleep, connect_to}
use libedio.Cli.State.{Console}
use libedio.Cli.Command.{Done, creates}
use libedio.Cli.Command.Laws.{Handled, Sends}
use libedio.Simulator.Stream.{is_request}
use libedio.Simulator.State.{sizeof_buffer}
use libedio.Exchange.Commands.Follows.{Follows, finished, next}
use libedio.Exchange.Conversation.{
  sent_bytes, outgoing, AreWrites, writes, pauses, IsWrite, AllWrites,
}

-- What a run over the lines sends: packets that write pins, one for each such line. Writes and pauses
-- are counted as requests, and the replies and what the client holds stay as they were.
pub record Requests (c : Console) (lines : List Line) (log : List Done) (last : Console)
    : Type 0 where
  pub packets : List (List ℕ)
  pub frames : AllFrames is_request packets
  pub kind : AllWrites packets
  pub fit : AllFit sizeof_buffer packets
  pub number : length packets ≡ writes lines
  pub stream : outgoing log ≡ join packets
  pub bytes : AllBytes (outgoing log)
  pub requests : last.num_requests ≡ (c.num_requests + (writes lines + pauses lines)) % 2 ^ 64
  pub same_rest :
      (last.num_responds ≡ c.num_responds) × (last.sz_data ≡ c.sz_data) × (last.buffer ≡ c.buffer)

-- a request that writes pins
abbrev IsPins : Request → Type 0
IsPins r = (data_count r ≡ 6) × ((opcode r ≡ cmd_dout_w) ⊎ (opcode r ≡ cmd_dconf_w))

pins_known : (r : Request) → IsPins r → is_request (opcode r) ≡ true
unfolding case_of
pins_known r (n, inl e) = rw e refl
pins_known r (n, inr e) = rw e refl

module _ (c : Console) (r : Request) (d : Done) (p : IsPins r)
    (h : Handled c (creates r) (some d)) where
  handled-Sends : Sends c r (some d)
  handled-Sends = elim h [ inl (small, sends) ↦ sends | inr (large, e) ↦ absurd (cc) ]

  abbrev done : d ≡ record {
    console = record c {
      frame = (c.frame + 1) % 256;
      num_requests = (c.num_requests + 1) % 2 ^ 64;
    };
    sent = some (record { cap = 7 + data_count r; byte = handled-Sends.m });
    pause = 0;
  }
  done = some-injective _ _ handled-Sends.returns

  -- the bytes of the packet
  abbrev text : List ℕ
  text = bytes_of handled-Sends.m 13

  sent-text : sent_bytes d.sent ≡ text
  sent-text =
      ap (λ (x : Done). sent_bytes x.sent) done
      ∙ ap (bytes_of handled-Sends.m) {y = 13} (omega (arith, p.0))

  text-IsFrame : IsFrame is_request text
  text-IsFrame =
      packet-IsFrame is_request handled-Sends.m (opcode r) c.frame 0 6 (omega arith)
        (subst (λ (k : ℕ). IsPacket handled-Sends.m (opcode r) c.frame 0 k) p.0
          handled-Sends.packet)
        (pins_known r p)

  text-IsWrite : IsWrite text
  text-IsWrite =
      let e : byte_of text 1 ≡ opcode r = handled-Sends.packet.command in
      (refl, elim p.1 [ inl q ↦ inl (e ∙ q) | inr q ↦ inr (e ∙ q) ])

  pub counted-lt : d.console.num_requests < 2 ^ 64
  counted-lt = omega (arith, ap (λ (x : Done). x.console.num_requests) done)

  -- a line that sends one more packet
  another :
      (l : Line) (lines : List Line) (log : List Done) (last : Console)
      → writes (l ∷ lines) ≡ writes lines + 1
      → pauses (l ∷ lines) ≡ pauses lines
      → Requests d.console lines log last
      → Requests c (l ∷ lines) (d ∷ log) last
  another l lines log last more same_pauses rs = record {
    packets = text ∷ rs.packets;
    frames = (text-IsFrame, rs.frames);
    kind = (text-IsWrite, rs.kind);
    fit = (omega arith, rs.fit);
    number = omega (arith, rs.number, more);
    stream = ap (λ (x : List ℕ). x ++ outgoing log) sent-text ∙ ap (◌++◌ text) rs.stream;
    bytes =
        AllBytes-append (sent_bytes d.sent) (outgoing log)
          (subst AllBytes (sym sent-text)
            (bytes_of-AllBytes handled-Sends.m 13 (λ i h. handled-Sends.bytes i)))
          rs.bytes;
    requests =
        omega
          (arith, rs.requests, more, same_pauses, ap (λ (x : Done). x.console.num_requests) done);
    same_rest = (
      rs.same_rest.0 ∙ ap (λ (x : Done). x.console.num_responds) done,
      rs.same_rest.1 ∙ ap (λ (x : Done). x.console.sz_data) done,
      rs.same_rest.2 ∙ ap (λ (x : Done). x.console.buffer) done,
    );
  }

-- A line that sends no bytes.
silent :
    (c : Console) (l : Line) (lines : List Line) (d : Done) (log : List Done) (last : Console)
    (count : ℕ)
    → writes (l ∷ lines) ≡ writes lines
    → pauses (l ∷ lines) ≡ pauses lines + count
    → sent_bytes d.sent ≡ []
    → d.console.num_requests ≡ (c.num_requests + count) % 2 ^ 64
    → (d.console.num_responds ≡ c.num_responds)
      × (d.console.sz_data ≡ c.sz_data)
      × (d.console.buffer ≡ c.buffer)
    → Requests d.console lines log last
    → Requests c (l ∷ lines) (d ∷ log) last
silent c l lines d log last count same_writes more nothing counted same_rest rs = record {
  packets = rs.packets;
  frames = rs.frames;
  kind = rs.kind;
  fit = rs.fit;
  number = omega (arith, rs.number, same_writes);
  stream = ap (λ (x : List ℕ). x ++ outgoing log) nothing ∙ rs.stream;
  bytes = AllBytes-append (sent_bytes d.sent) (outgoing log) (rw nothing tt) rs.bytes;
  requests = omega (arith, rs.requests, counted, same_writes, more);
  same_rest =
      (rs.same_rest.0 ∙ same_rest.0, rs.same_rest.1 ∙ same_rest.1, rs.same_rest.2 ∙ same_rest.2);
}

pub Follows-Requests :
    (c : Console) (lines : List Line) (log : List Done) (last : Console)
    → c.num_requests < 2 ^ 64
    → AreWrites lines
    → Follows c lines log last
    → Requests c lines log last
Follows-Requests c lines log last small are (finished _) = record {
  packets = [];
  frames = tt;
  kind = tt;
  fit = tt;
  number = refl;
  stream = refl;
  bytes = tt;
  requests = omega arith;
  same_rest = (refl, refl, refl);
}
Follows-Requests c _ _ last small are (next _ (dconfig_w mask value) lines d log _ h f) =
    another c (dconfw mask value) d (refl, inr refl) h (dconfig_w mask value) lines log last refl
      refl
      (Follows-Requests d.console lines log last
        (counted-lt c (dconfw mask value) d (refl, inr refl) h) are f)
Follows-Requests c _ _ last small are (next _ (dout_w mask value) lines d log _ h f) =
    another c (doutw mask value) d (refl, inl refl) h (dout_w mask value) lines log last refl refl
      (Follows-Requests d.console lines log last
        (counted-lt c (doutw mask value) d (refl, inl refl) h) are f)
Follows-Requests c _ _ last small are (next _ dout_r lines d log _ h f) = absurd are
Follows-Requests c _ _ last small are (next _ blank lines d log _ h f) =
    let e = some-injective _ _ h in
    silent c blank lines d log last 0 refl (omega arith) (ap (λ (x : Done). sent_bytes x.sent) e)
      (omega (arith, ap (λ (x : Done). x.console.num_requests) e))
      (
        ap (λ (x : Done). x.console.num_responds) e,
        ap (λ (x : Done). x.console.sz_data) e,
        ap (λ (x : Done). x.console.buffer) e,
      )
      (Follows-Requests d.console lines log last
        (omega (arith, ap (λ (x : Done). x.console.num_requests) e)) are f)
Follows-Requests c _ _ last small are (next _ (connect_to s i) lines d log _ h f) =
    let e = some-injective _ _ h in
    silent c (connect_to s i) lines d log last 0 refl (omega arith)
      (ap (λ (x : Done). sent_bytes x.sent) e)
      (omega (arith, ap (λ (x : Done). x.console.num_requests) e))
      (
        ap (λ (x : Done). x.console.num_responds) e,
        ap (λ (x : Done). x.console.sz_data) e,
        ap (λ (x : Done). x.console.buffer) e,
      )
      (Follows-Requests d.console lines log last
        (omega (arith, ap (λ (x : Done). x.console.num_requests) e)) are f)
Follows-Requests c _ _ last small are (next _ (sleep n) lines d log _ h f) =
    let e = some-injective _ _ h in
    silent c (sleep n) lines d log last 1 refl refl (ap (λ (x : Done). sent_bytes x.sent) e)
      (ap (λ (x : Done). x.console.num_requests) e)
      (
        ap (λ (x : Done). x.console.num_responds) e,
        ap (λ (x : Done). x.console.sz_data) e,
        ap (λ (x : Done). x.console.buffer) e,
      )
      (Follows-Requests d.console lines log last
        (omega (arith, ap (λ (x : Done). x.console.num_requests) e)) are f)
