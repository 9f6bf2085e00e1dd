-- ===== src/Cli/Stream.antt =====
-- The replies that utils/edio24cli.c takes from the stream of a connection, however TCP cuts it into
-- reads.
pub mod Reads
mod Tests
use libedio.Base.{
  ℕ, zero, suc, ◌+◌, ◌-◌, ◌%◌, ◌^◌, ◌≤◌, ◌<◌, ◌≡◌, ◌∙◌, refl, sym, ap, arith, inl, inr, Bool, true,
  List, [], ◌∷◌, ◌++◌, Buffer, IsBytes, not, ltb, pos,
}
use mathlib.Core.List.{append_assoc, append-nil}
use mathlib.Core.Path.{subst}
use libedio.Text.{length}
use libedio.Text.Laws.{length-append}
use libedio.Client.Tcp.{case_of}
use libedio.Client.Tcp.Laws.{is_supported}
use libedio.Packet.Verify.Laws.{count_of}
use libedio.Stream.{
  bytes_of, length-bytes_of, bytes_of-agree, bytes_of-split, bytes_of-copied, bytes_of-shifted,
  join, join-append,
}
use libedio.Stream.Frames.{
  IsFrame, AllFrames, AllFrames-append, AllFit, AllFit-suffix, head-IsFrame, AllFrames-prefix,
  stuck-lt,
}
use libedio.Inbox.{shifted_bytes}
use libedio.Cli.State.{Console, IsConsole, sizeof_buffer}
use libedio.Cli.Process.Laws.{IsReply, IsStuck, taken, Counted, none_left, reply}
use libedio.Cli.Receive.{Outcome, returned, on_tcp_cli_read}
use libedio.Cli.Receive.Laws.{pushed, Fed, start, takes, feeds, Handled, on_tcp_cli_read-Handled}

-- whether the client knows the command of a reply
abbrev pub is_reply : ℕ → Bool
is_reply command = is_supported (case_of (command % 128))

-- the bytes that the client holds
abbrev pub held : Console → List ℕ
held c = bytes_of c.buffer.byte c.sz_data

-- The number of replies is below the bound of a `size_t`.
abbrev pub IsCounter : Console → Type 0
IsCounter c = c.num_responds < 2 ^ 64

-- What the client took between two states: replies, each counted, and nothing else. `fed` are the
-- bytes that arrived between them.
pub record Took (c c' : Console) (fed : List ℕ) : Type 0 where
  pub replies : List (List ℕ)
  pub frames : AllFrames is_reply replies
  pub stream : held c ++ fed ≡ join replies ++ held c'
  pub counts : c'.num_responds ≡ (c.num_responds + length replies) % 2 ^ 64
  pub requests : c'.num_requests ≡ c.num_requests

-- The reply at the head of the data, and what the client holds without it.
held-taken :
    (c : Console)
    → IsReply c
    → held c ≡ bytes_of c.buffer.byte (7 + count_of c.buffer.byte) ++ held (taken c)
held-taken c is =
    bytes_of-shifted c.buffer.byte (7 + count_of c.buffer.byte) c.sz_data (omega (arith, is.0.0))

Counted-Took : {c c' : Console} → IsCounter c → Counted c c' → Took c c' []
Counted-Took {c} small none_left = record {
  replies = [];
  frames = tt;
  stream = append-nil (held c);
  counts = omega arith;
  requests = refl;
}
Counted-Took {c} {c'} small (reply is more) =
    let t : Took (taken c) c' [] = Counted-Took (omega arith) more in
    let p : List ℕ = bytes_of c.buffer.byte (7 + count_of c.buffer.byte) in
    record {
      replies = p ∷ t.replies;
      frames = (head-IsFrame is_reply c.buffer.byte (is.0.1, is.1), t.frames);
      stream =
          append-nil (held c)
          ∙ (held-taken c is
              ∙ (ap (◌++◌ p) (sym (append-nil (held (taken c))) ∙ t.stream)
                  ∙ sym (append_assoc p (join t.replies) (held c'))));
      counts = omega (arith, t.counts);
      requests = t.requests;
    }

-- One after the other.
Took-trans : {c c' c'' : Console} {x y : List ℕ} → Took c c' x → Took c' c'' y → Took c c'' (x ++ y)
Took-trans {c} {c'} {c''} {x} {y} t u = record {
  replies = t.replies ++ u.replies;
  frames = AllFrames-append is_reply t.replies u.replies t.frames u.frames;
  stream =
      sym (append_assoc (held c) x y)
      ∙ (ap (λ (s : List ℕ). s ++ y) t.stream
          ∙ (append_assoc (join t.replies) (held c') y
              ∙ (ap (◌++◌ (join t.replies)) u.stream
                  ∙ (sym (append_assoc (join t.replies) (join u.replies) (held c''))
                      ∙ ap (λ (s : List ℕ). s ++ held c'')
                          (sym (join-append t.replies u.replies))))));
  counts = omega (arith, t.counts, u.counts, length-append t.replies u.replies);
  requests = u.requests ∙ t.requests;
}

-- Bytes that are pushed are held.
pushed-Took :
    (input : Buffer) (n more : ℕ) (c : Console)
    → IsCounter c
    → Took c (pushed input n more c) (bytes_of (λ i. input.byte (n + i)) more)
pushed-Took input n more c small = record {
  replies = [];
  frames = tt;
  stream = sym (bytes_of-copied c.buffer.byte (λ i. input.byte (n + i)) c.sz_data more);
  counts = omega arith;
  requests = refl;
}

Took-IsCounter : {c c' : Console} {x : List ℕ} → Took c c' x → IsCounter c'
Took-IsCounter t = omega (arith, t.counts)

Fed-Took :
    {input : Buffer} {c c' : Console} {n : ℕ}
    → IsCounter c
    → Fed input c c' n
    → Took c c' (bytes_of input.byte n)
Fed-Took {c = c} small start = Counted-Took small none_left
Fed-Took {input} {n = n} small (takes f counted) =
    let t = Fed-Took small f in
    subst (Took _ _) (append-nil (bytes_of input.byte n))
      (Took-trans t (Counted-Took (Took-IsCounter t) counted))
Fed-Took {input} small (feeds {c' = c'} {n = n} f more) =
    let t = Fed-Took small f in
    subst (Took _ _) (sym (bytes_of-split input.byte n more (n + more) refl))
      (Took-trans t (pushed-Took input n more c' (Took-IsCounter t)))
