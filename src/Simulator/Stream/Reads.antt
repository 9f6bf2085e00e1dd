-- ===== src/Simulator/Stream/Reads.antt =====
-- The reads of a connection of utils/edio24sim.c, one after the other: on_tcp_svr_read is called with
-- what arrived, until it closes the connection.
use libedio.Base.{
  ℕ, suc, ◌+◌, ◌-◌, ◌*◌, ◌≤◌, ◌<◌, ◌≡◌, ◌≢◌, ◌∙◌, refl, sym, ap, arith, inl, inr, true, false, List,
  [], ◌∷◌, ◌++◌, Buffer, IsBytes, pos,
}
use mathlib.Core.List.{append_assoc, append-nil}
use mathlib.Core.Path.{subst}
use libedio.Text.{length}
use libedio.Text.Laws.{length-append}
use libedio.Stream.{bytes_of, length-bytes_of, bytes_of-split, join, arrived, ArePieces}
use libedio.Stream.Frames.{AllFrames, AllFit, AllFit-suffix, stuck-lt}
use libedio.Simulator.State.{Device, IsDevice, Message, Turn, sizeof_buffer}
use libedio.Simulator.Process.Laws.{Blocked}
use libedio.Simulator.Receive.{Outcome, returned, undefined, out_of_fuel, on_tcp_svr_read}
use libedio.Simulator.Receive.Laws.{on_tcp_svr_read-Received}
use libedio.Simulator.Stream.{is_request, held, Answers, Answers-append, Served, Fed-Served}

-- What libuv makes of a connection: a read for each piece that arrives, a piece being as long as its
-- buffer. After the close nothing more is read. The turns of the `k`-th read are `turns k`.
unfoldable pub reads : ℕ → (ℕ → ℕ → ℕ → Turn) → ℕ → Device → List Message → List Buffer → Outcome
reads deep turns k d sent [] = returned d sent false
reads deep turns k d sent (b ∷ bs) =
    elim (on_tcp_svr_read (b.cap + 1) deep (turns k) d (pos b.cap) b) [
      | returned d' more true ↦ returned d' (sent ++ more) true
      | returned d' more false ↦ reads deep turns (k + 1) d' (sent ++ more) bs
      | undefined ↦ undefined
      | out_of_fuel ↦ out_of_fuel
    ]

reads-open :
    (deep : ℕ) (turns : ℕ → ℕ → ℕ → Turn) (k : ℕ) (d d' : Device) (sent more : List Message)
    (b : Buffer) (bs : List Buffer)
    → on_tcp_svr_read (b.cap + 1) deep (turns k) d (pos b.cap) b ≡ returned d' more false
    → reads deep turns k d sent (b ∷ bs) ≡ reads deep turns (k + 1) d' (sent ++ more) bs
unfolding reads
reads-open deep turns k d d' sent more b bs e = rw (e, reads) refl

-- A full buffer in a stream of requests that fit it begins with a whole one.
full-absurd :
    (d : Device) (qs : List (List ℕ)) (y : List ℕ)
    → AllFrames is_request qs
    → AllFit sizeof_buffer qs
    → held d ++ y ≡ join qs
    → Blocked d
    → d.sz_data ≢ sizeof_buffer
full-absurd d [] y fs fits e stuck full =
    omega (arith, ap length e, length-append (held d) y, length-bytes_of d.buffer.byte d.sz_data)
full-absurd d (q ∷ qs) y fs fits e stuck full =
    omega (arith, fits.0, stuck-lt is_request d.buffer.byte d.sz_data q y (join qs) fs.0 e stuck)

-- A read in a stream of requests.
record Continues (turns : ℕ → ℕ → Turn) (deep : ℕ) (d : Device) (b : Buffer) (qs : List (List ℕ))
    (future : List ℕ) : Type 0 where
  last : Device
  sent : List Message
  returns : on_tcp_svr_read (b.cap + 1) deep turns d (pos b.cap) b ≡ returned last sent false
  served : Served qs last future sent
  valid : IsDevice last
  blocked : Blocked last

on_tcp_svr_read-Continues :
    (turns : ℕ → ℕ → Turn) (deep : ℕ) (d : Device) (b : Buffer) (qs : List (List ℕ))
    (future : List ℕ)
    → sizeof_buffer * 70000 + 65543 < deep
    → IsDevice d
    → 0 < b.cap
    → IsBytes b.byte
    → AllFrames is_request qs
    → AllFit sizeof_buffer qs
    → held d ++ (bytes_of b.byte b.cap ++ future) ≡ join qs
    → Continues turns deep d b qs future
on_tcp_svr_read-Continues turns deep d b qs future enough v piece bytes fs fits e =
    let n : ℕ = b.cap - 1 in
    let size : suc n ≡ b.cap = omega arith in
    let h =
      on_tcp_svr_read-Received (b.cap + 1) deep turns d n b v bytes (omega arith) (omega arith)
        enough in
    let left : List ℕ = bytes_of (λ i. b.byte (h.fed + i)) (b.cap - h.fed) in
    let whole : (h.fed ≤ b.cap)
        → bytes_of b.byte h.fed ++ (left ++ future) ≡ bytes_of b.byte b.cap ++ future =
      λ part.
        sym (append_assoc (bytes_of b.byte h.fed) left future)
        ∙ ap (λ (s : List ℕ). s ++ future)
            (sym (bytes_of-split b.byte h.fed (b.cap - h.fed) b.cap (omega arith))) in
    let s : Served qs h.device (left ++ future) h.sent =
      Fed-Served qs b d h.device h.fed h.sent fs h.history (left ++ future)
        (ap (◌++◌ (held d)) (whole (omega (arith, h.within))) ∙ e) in
    let fits' : AllFit sizeof_buffer s.rest =
      AllFit-suffix sizeof_buffer s.answered s.rest (subst (AllFit sizeof_buffer) s.split fits) in
    let (stays, all) : (h.closed ≡ false) × (h.fed ≡ suc n) = elim h.full [
      | inl both ↦ both
      | inr full ↦
          absurd
            (full-absurd h.device s.rest (left ++ future) s.frames fits' s.stream h.blocked full)
    ] in
    let none_left : left ≡ [] = (let e' : b.cap - h.fed ≡ 0 = omega arith in rw e' refl) in
    record {
      last = h.device;
      sent = h.sent;
      returns =
          subst
            (λ (k : ℕ).
              on_tcp_svr_read (b.cap + 1) deep turns d (pos k) b
              ≡ returned h.device h.sent h.closed)
            size h.returns
          ∙ ap (returned h.device h.sent) stays;
      served = subst (λ (x : List ℕ). Served qs h.device (x ++ future) h.sent) none_left s;
      valid = h.valid;
      blocked = h.blocked;
    }

-- What the simulator comes to: every request is answered once and in order, the connection stays open,
-- and nothing is held.
pub record AllAnswered (qs : List (List ℕ)) (sent : List Message) (result : Outcome) : Type 0 where
  pub last : Device
  pub replies : List Message
  pub returns : result ≡ returned last (sent ++ replies) false
  pub answers : Answers qs replies
  pub empty : last.sz_data ≡ 0

-- However TCP cuts a stream of requests into pieces: where what the device holds fits its buffer,
-- does not begin with a packet that it can serve, and is together with the pieces whole requests of
-- known commands that fit its buffer, the simulator, with enough fuel, sends for each exactly one
-- message, in their order and nothing else, which for a write or a blink of the LED is a packet
-- without data that bears the command, as a reply does, and the frame of the request. The
-- connection stays open, and nothing is held at the end.
pub reads-AllAnswered :
    (bs : List Buffer) (deep : ℕ) (turns : ℕ → ℕ → ℕ → Turn) (k : ℕ) (d : Device)
    (sent : List Message) (qs : List (List ℕ))
    → sizeof_buffer * 70000 + 65543 < deep
    → IsDevice d
    → Blocked d
    → ArePieces bs
    → AllFrames is_request qs
    → AllFit sizeof_buffer qs
    → held d ++ arrived bs ≡ join qs
    → AllAnswered qs sent (reads deep turns k d sent bs)
unfolding reads
reads-AllAnswered [] deep turns k d sent [] enough v stuck are fs fits e = record {
  last = d;
  replies = [];
  returns = ap (λ (s : List Message). returned d s false) (sym (append-nil sent));
  answers = tt;
  empty =
      omega
        (arith, ap length e, length-append (held d) [], length-bytes_of d.buffer.byte d.sz_data);
}
reads-AllAnswered [] deep turns k d sent (q ∷ qs) enough v stuck are fs fits e = absurd (
    omega (
      arith,
      stuck-lt is_request d.buffer.byte d.sz_data q [] (join qs) fs.0 e stuck,
      ap length e,
      length-append (held d) [],
      length-append q (join qs),
      length-bytes_of d.buffer.byte d.sz_data,
    ))
reads-AllAnswered (b ∷ bs) deep turns k d sent qs enough v stuck are fs fits e =
    let r =
      on_tcp_svr_read-Continues (turns k) deep d b qs (arrived bs) enough v are.0 are.1 fs fits e in
    let s = r.served in
    let rest =
      reads-AllAnswered bs deep turns (k + 1) r.last (sent ++ r.sent) s.rest enough r.valid
        r.blocked are.2 s.frames
        (AllFit-suffix sizeof_buffer s.answered s.rest (subst (AllFit sizeof_buffer) s.split fits))
        s.stream in
    record {
      last = rest.last;
      replies = r.sent ++ rest.replies;
      returns =
          reads-open deep turns k d r.last sent r.sent b bs r.returns
          ∙ (rest.returns
              ∙ ap (λ (x : List Message). returned rest.last x false)
                  (append_assoc sent r.sent rest.replies));
      answers =
          subst (λ x. Answers x (r.sent ++ rest.replies)) (sym s.split)
            (Answers-append s.answered s.rest r.sent rest.replies s.answers rest.answers);
      empty = rest.empty;
    }
