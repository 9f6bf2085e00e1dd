-- ===== src/Simulator/Stream.antt =====
-- The requests that utils/edio24sim.c takes from the stream of a connection, however TCP cuts it into
-- reads, and the messages that answer them.
pub mod Reads
mod Tests
use libedio.Base.{
  ℕ, zero, suc, ◌+◌, ◌-◌, ◌≤◌, ◌<◌, ◌≡◌, ◌≢◌, ◌∙◌, refl, sym, ap, arith, inl, inr, Bool, true, List,
  [], ◌∷◌, ◌++◌, Buffer,
}
use mathlib.Core.List.{append_assoc, append-nil}
use mathlib.Core.Path.{subst}
use libedio.Text.{length}
use libedio.Text.Laws.{length-append}
use libedio.Util.Strip.{byte_of}
use libedio.Packet.Verify.Laws.{count_of, IsWhole}
use libedio.Packet.Format.{IsPacket}
use libedio.Server.Tcp.{case_of}
use libedio.Server.Tcp.Laws.{is_supported}
use libedio.Stream.{
  bytes_of, length-bytes_of, byte_of-bytes_of, bytes_of-split, bytes_of-copied, bytes_of-shifted,
  join, join-append,
}
use libedio.Stream.Frames.{
  IsFrame, AllFrames, AllFit, AllFit-suffix, head-IsFrame, AllFrames-prefix, stuck-lt,
  header-length,
}
use libedio.Simulator.State.{Device, IsDevice, Message, sizeof_buffer}
use libedio.Simulator.Process.Laws.{Blocked, IsAnswer}
use libedio.Simulator.Process.Loop.{Drained, none_left, packet, Ran}
use libedio.Simulator.Receive.Laws.{pushed, Fed, start, runs, feeds}

-- whether the device knows the command of a request
abbrev pub is_request : ℕ → Bool
is_request command = is_supported (case_of command)

-- the bytes that the device holds
abbrev pub held : Device → List ℕ
held d = bytes_of d.buffer.byte d.sz_data

-- One message for each request, in order, which answers it.
abbrev pub Answers : List (List ℕ) → List Message → Type 0
Answers [] [] = Unit {0}
Answers [] (reply ∷ replies) = ⊥
Answers (p ∷ ps) [] = ⊥
Answers (p ∷ ps) (reply ∷ replies) = IsAnswer (byte_of p) (length p) reply × Answers ps replies

pub Answers-append :
    (ps qs : List (List ℕ)) (xs ys : List Message)
    → Answers ps xs
    → Answers qs ys
    → Answers (ps ++ qs) (xs ++ ys)
Answers-append [] qs [] ys a b = b
Answers-append [] qs (x ∷ xs) ys a b = absurd a
Answers-append (p ∷ ps) qs [] ys a b = absurd a
Answers-append (p ∷ ps) qs (x ∷ xs) ys a b = (a.0, Answers-append ps qs xs ys a.1 b)

-- An answer is one to the packet as a list.
bytes_of-IsAnswer :
    (m : ℕ → ℕ) (n : ℕ) (reply : Message)
    → 7 + count_of m ≤ n
    → IsAnswer m n reply
    → IsAnswer (byte_of (bytes_of m (7 + count_of m))) (length (bytes_of m (7 + count_of m))) reply
bytes_of-IsAnswer m n reply h a =
    let k : ℕ = 7 + count_of m in
    let same_command : m 1 ≡ byte_of (bytes_of m k) 1 =
      sym (byte_of-bytes_of m k 1 (omega arith)) in
    let same_frame : m 2 ≡ byte_of (bytes_of m k) 2 = sym (byte_of-bytes_of m k 2 (omega arith)) in
    record {
      known = subst (λ (c : ℕ). is_supported (case_of c) ≡ true) same_command a.known;
      bare = λ bare.
          let (size, (status, small, q)) = a.bare (rw same_command bare) in
          (
            size,
            (
              status,
              small,
              subst (λ (c : ℕ). IsPacket reply.byte (c + 128) (byte_of (bytes_of m k) 2) status 0)
                  same_command
                  (subst (λ (f : ℕ). IsPacket reply.byte (m 1 + 128) f status 0) same_frame q),
            ),
          );
    }

-- The requests at the head of the data that were taken.
record Taken (d d' : Device) (replies : List Message) : Type 0 where
  requests : List (List ℕ)
  frames : AllFrames is_request requests
  answers : Answers requests replies
  stream : held d ≡ join requests ++ held d'

Drained-Taken : {d d' : Device} {replies : List Message} → Drained d d' replies → Taken d d' replies
Drained-Taken none_left = record { requests = []; frames = tt; answers = tt; stream = refl }
Drained-Taken {d} {d'} (packet reply w a more) =
    let t = Drained-Taken more in
    let k : ℕ = 7 + count_of d.buffer.byte in
    let p : List ℕ = bytes_of d.buffer.byte k in
    record {
      requests = p ∷ t.requests;
      frames = (head-IsFrame is_request d.buffer.byte (w.1, a.known), t.frames);
      answers = (bytes_of-IsAnswer d.buffer.byte d.sz_data reply w.0 a, t.answers);
      stream =
          bytes_of-shifted d.buffer.byte k d.sz_data w.0
          ∙ (ap (◌++◌ p) t.stream ∙ sym (append_assoc p (join t.requests) (held d')));
    }

-- In a stream of requests, what was taken so far was answered, and what is held is the begin of the
-- rest. `future` is what follows in the stream.
pub record Served (qs : List (List ℕ)) (d : Device) (future : List ℕ) (sent : List Message)
    : Type 0 where
  pub answered : List (List ℕ)
  pub rest : List (List ℕ)
  pub split : qs ≡ answered ++ rest
  pub answers : Answers answered sent
  pub frames : AllFrames is_request rest
  pub stream : held d ++ future ≡ join rest

-- A run sends nothing but answers: the data do not begin with a packet that has all its bytes.
no_junk :
    (d : Device) (qs : List (List ℕ)) (future : List ℕ)
    → AllFrames is_request qs
    → held d ++ future ≡ join qs
    → ¬ (Blocked d × (7 + count_of d.buffer.byte ≤ d.sz_data))
no_junk d [] future fs e (stuck, long) =
    omega
      (arith, ap length e, length-append (held d) future, length-bytes_of d.buffer.byte d.sz_data)
no_junk d (q ∷ qs) future fs e (stuck, long) = omega (
  arith,
  stuck-lt is_request d.buffer.byte d.sz_data q future (join qs) fs.0 e stuck,
  header-length is_request d.buffer.byte d.sz_data q future (join qs) fs.0 e (omega arith),
)

run-Served :
    (qs : List (List ℕ)) (d d' : Device) (future : List ℕ) (sent more : List Message)
    → Served qs d future sent
    → Ran d d' more
    → Served qs d' future (sent ++ more)
run-Served qs d d' future sent more s ran =
    let t = Drained-Taken ran.drained in
    let behind : join t.requests ++ (held d' ++ future) ≡ join s.rest =
      sym (append_assoc (join t.requests) (held d') future)
      ∙ (ap (λ (x : List ℕ). x ++ future) (sym t.stream) ∙ s.stream) in
    let (rest, split, stream, fs) =
      AllFrames-prefix is_request t.requests s.rest (held d' ++ future) t.frames s.frames behind in
    let only_answers : more ≡ ran.replies = elim ran.junk_only [
      | inl none ↦ ran.all ∙ (ap (◌++◌ ran.replies) none ∙ append-nil ran.replies)
      | inr some_junk ↦ absurd (no_junk d' rest future fs stream some_junk)
    ] in
    record {
      answered = s.answered ++ t.requests;
      rest = rest;
      split =
          s.split ∙ (ap (◌++◌ s.answered) split ∙ sym (append_assoc s.answered t.requests rest));
      answers =
          subst (λ x. Answers (s.answered ++ t.requests) (sent ++ x)) (sym only_answers)
            (Answers-append s.answered t.requests sent ran.replies s.answers t.answers);
      frames = fs;
      stream = stream;
    }

pub Fed-Served :
    (qs : List (List ℕ)) (input : Buffer) (d d' : Device) (n : ℕ) (sent : List Message)
    → AllFrames is_request qs
    → Fed input d d' n sent
    → (future : List ℕ) → held d ++ (bytes_of input.byte n ++ future) ≡ join qs
    → Served qs d' future sent
Fed-Served qs input d _ _ _ fs start future e = record {
  answered = [];
  rest = qs;
  split = refl;
  answers = tt;
  frames = fs;
  stream = e;
}
Fed-Served qs input d d'' n _ fs (runs {d' = d'} {sent = sent} f more ran) future e =
    run-Served qs d' d'' future sent more (Fed-Served qs input d d' n sent fs f future e) ran
Fed-Served qs input d _ _ sent fs (feeds {d' = d'} {n = n} f more) future e =
    let new : List ℕ = bytes_of (λ i. input.byte (n + i)) more in
    let s = Fed-Served qs input d d' n sent fs f (new ++ future) (
      ap (◌++◌ (held d)) (
        sym (append_assoc (bytes_of input.byte n) new future)
        ∙ ap (λ (x : List ℕ). x ++ future) (sym (bytes_of-split input.byte n more (n + more) refl)))
      ∙ e) in
    record {
      answered = s.answered;
      rest = s.rest;
      split = s.split;
      answers = s.answers;
      frames = s.frames;
      stream =
          ap (λ (x : List ℕ). x ++ future)
            (bytes_of-copied d'.buffer.byte (λ i. input.byte (n + i)) d'.sz_data more)
          ∙ (append_assoc (held d') new future ∙ s.stream);
    }
