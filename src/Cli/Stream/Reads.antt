-- ===== src/Cli/Stream/Reads.antt =====
-- The reads of a connection of utils/edio24cli.c, one after the other: on_tcp_cli_read is called with
-- what arrived, until it closes the connection.
use libedio.Base.{
  ℕ, suc, ◌+◌, ◌-◌, ◌%◌, ◌^◌, ◌≤◌, ◌<◌, ◌≡◌, ◌≢◌, ◌∙◌, refl, sym, ap, arith, inl, inr, Bool, true,
  false, Bool-cases, List, [], ◌∷◌, ◌++◌, Buffer, IsBytes, not, ltb, ltb→lt, ltb→le, lt→ltb, pos,
}
use mathlib.Core.List.{append_assoc}
use mathlib.Core.Path.{subst}
use libedio.Text.{length}
use libedio.Text.Laws.{length-append}
use libedio.Stream.{bytes_of, length-bytes_of, bytes_of-split, join, arrived, ArePieces}
use libedio.Stream.Frames.{AllFrames, AllFit, AllFit-suffix, AllFrames-prefix, stuck-lt}
use libedio.Cli.State.{Console, IsConsole, sizeof_buffer}
use libedio.Cli.Process.Laws.{IsStuck}
use libedio.Cli.Receive.{Outcome, returned, undefined, out_of_fuel, on_tcp_cli_read}
use libedio.Cli.Receive.Laws.{on_tcp_cli_read-Handled}
use libedio.Cli.Stream.{is_reply, held, IsCounter, Took, Fed-Took}

-- What libuv makes of a connection: a read for each piece that arrives, a piece being as long as its
-- buffer. After the close nothing more is read.
unfoldable pub reads : Console → List Buffer → Outcome
reads c [] = returned c false false
reads c (b ∷ bs) = elim (on_tcp_cli_read c (pos b.cap) b) [
  | returned c' true ended ↦ returned c' true ended
  | returned c' false ended ↦ reads c' bs
  | undefined ↦ undefined
  | out_of_fuel ↦ out_of_fuel
]

reads-open :
    (c c' : Console) (b : Buffer) (bs : List Buffer) (ended : Bool)
    → on_tcp_cli_read c (pos b.cap) b ≡ returned c' false ended
    → reads c (b ∷ bs) ≡ reads c' bs
unfolding reads
reads-open c c' b bs ended e = rw (e, reads) refl

reads-closed :
    (c c' : Console) (b : Buffer) (bs : List Buffer) (ended : Bool)
    → on_tcp_cli_read c (pos b.cap) b ≡ returned c' true ended
    → reads c (b ∷ bs) ≡ returned c' true ended
unfolding reads
reads-closed c c' b bs ended e = rw (e, reads) refl

-- A read in a stream of replies: the first ones are counted, and what is held is the begin of the rest.
record Continues (c : Console) (b : Buffer) (qs : List (List ℕ)) (future : List ℕ) : Type 0 where
  last : Console
  counted : List (List ℕ)
  rest : List (List ℕ)
  returns :
      on_tcp_cli_read c (pos b.cap) b
      ≡ returned last
          (not (ltb last.num_responds last.num_requests))
          (not (ltb last.num_responds last.num_requests))
  split : qs ≡ counted ++ rest
  frames : AllFrames is_reply rest
  stream : held last ++ future ≡ join rest
  valid : IsConsole last
  stuck : IsStuck last
  counts : last.num_responds ≡ (c.num_responds + length counted) % 2 ^ 64
  requests : last.num_requests ≡ c.num_requests

-- A full buffer in a stream of replies that fit it begins with a whole one.
full-absurd :
    (c : Console) (qs : List (List ℕ)) (y : List ℕ)
    → AllFrames is_reply qs
    → AllFit sizeof_buffer qs
    → held c ++ y ≡ join qs
    → IsStuck c
    → c.sz_data ≢ sizeof_buffer
full-absurd c [] y fs fits e stuck full =
    omega (arith, ap length e, length-append (held c) y, length-bytes_of c.buffer.byte c.sz_data)
full-absurd c (q ∷ qs) y fs fits e stuck full =
    omega (arith, fits.0, stuck-lt is_reply c.buffer.byte c.sz_data q y (join qs) fs.0 e stuck)

on_tcp_cli_read-Continues :
    (c : Console) (b : Buffer) (qs : List (List ℕ)) (future : List ℕ)
    → IsConsole c
    → IsCounter c
    → 0 < b.cap
    → IsBytes b.byte
    → AllFrames is_reply qs
    → AllFit sizeof_buffer qs
    → held c ++ (bytes_of b.byte b.cap ++ future) ≡ join qs
    → Continues c b qs future
on_tcp_cli_read-Continues c b qs future v small piece bytes fs fits e =
    let n : ℕ = b.cap - 1 in
    let size : suc n ≡ b.cap = omega arith in
    let h = on_tcp_cli_read-Handled c n b v bytes (omega arith) in
    let t : Took c h.last (bytes_of b.byte h.fed) = Fed-Took small h.history in
    let left : List ℕ = bytes_of (λ i. b.byte (h.fed + i)) (b.cap - h.fed) in
    let stream : (fed_less : h.fed ≤ b.cap)
        → join t.replies ++ (held h.last ++ (left ++ future)) ≡ join qs =
      λ fed_less.
        sym (append_assoc (join t.replies) (held h.last) (left ++ future))
        ∙ (ap (λ (s : List ℕ). s ++ (left ++ future)) (sym t.stream)
            ∙ (append_assoc (held c) (bytes_of b.byte h.fed) (left ++ future)
                ∙ (ap (◌++◌ (held c)) (
                      sym (append_assoc (bytes_of b.byte h.fed) left future)
                      ∙ ap (λ (s : List ℕ). s ++ future)
                          (sym (bytes_of-split b.byte h.fed (b.cap - h.fed) b.cap (omega arith))))
                    ∙ e))) in
    let part : h.fed ≤ b.cap = omega (arith, h.within) in
    let (rest, split, behind, gs) =
      AllFrames-prefix is_reply t.replies qs _ t.frames fs (stream part) in
    let fits' : AllFit sizeof_buffer rest =
      AllFit-suffix sizeof_buffer t.replies rest (subst (AllFit sizeof_buffer) split fits) in
    let all_fed : h.fed ≡ b.cap = elim h.full [
      | inl all ↦ omega arith
      | inr full ↦ absurd (full-absurd h.last rest (left ++ future) gs fits' behind h.stuck full)
    ] in
    let none_left : bytes_of (λ i. b.byte (h.fed + i)) (b.cap - h.fed) ≡ [] =
      (let e' : b.cap - h.fed ≡ 0 = omega arith in rw e' refl) in
    record {
      last = h.last;
      counted = t.replies;
      rest = rest;
      returns =
          subst
            (λ (k : ℕ).
              on_tcp_cli_read c (pos k) b
              ≡ returned h.last (not (ltb h.last.num_responds h.last.num_requests))
                  (not (ltb h.last.num_responds h.last.num_requests)))
            size h.returns;
      split = split;
      frames = gs;
      stream = ap (λ (s : List ℕ). held h.last ++ (s ++ future)) (sym none_left) ∙ behind;
      valid = h.valid;
      stuck = h.stuck;
      counts = t.counts;
      requests = t.requests;
    }

-- What the client comes to: all replies are counted, nothing is held, and the connection is closed and
-- the program ended exactly if no reply is missing.
pub record AllRead (c : Console) (replies : ℕ) (result : Outcome) : Type 0 where
  pub last : Console
  pub returns :
      result
      ≡ returned last
          (not (ltb last.num_responds last.num_requests))
          (not (ltb last.num_responds last.num_requests))
  pub counts : last.num_responds ≡ c.num_responds + replies
  pub requests : last.num_requests ≡ c.num_requests
  pub empty : last.sz_data ≡ 0

pub reads-AllRead :
    (bs : List Buffer) (c : Console) (qs : List (List ℕ))
    → IsConsole c
    → IsStuck c
    → ArePieces bs
    → AllFrames is_reply qs
    → AllFit sizeof_buffer qs
    → held c ++ arrived bs ≡ join qs
    → c.num_responds < c.num_requests
    → c.num_responds + length qs ≤ c.num_requests
    → c.num_requests < 2 ^ 64
    → AllRead c (length qs) (reads c bs)
unfolding reads
reads-AllRead [] c [] v stuck are fs fits e more most big =
    let waits : not (ltb c.num_responds c.num_requests) ≡ false = rw (lt→ltb _ _ more) refl in
    record {
      last = c;
      returns = rw waits refl;
      counts = omega arith;
      requests = refl;
      empty =
          omega (
            arith,
            ap length e,
            length-append (held c) [],
            length-bytes_of c.buffer.byte c.sz_data,
          );
    }
reads-AllRead [] c (q ∷ qs) v stuck are fs fits e more most big = absurd (
    omega (
      arith,
      stuck-lt is_reply c.buffer.byte c.sz_data q [] (join qs) fs.0 e stuck,
      ap length e,
      length-append (held c) [],
      length-append q (join qs),
      length-bytes_of c.buffer.byte c.sz_data,
    ))
reads-AllRead (b ∷ bs) c qs v stuck are fs fits e more most big =
    let r = on_tcp_cli_read-Continues c b qs (arrived bs) v (omega arith) are.0 are.1 fs fits e in
    let fits' : AllFit sizeof_buffer r.rest =
      AllFit-suffix sizeof_buffer r.counted r.rest (subst (AllFit sizeof_buffer) r.split fits) in
    let number : length qs ≡ length r.counted + length r.rest =
      ap length r.split ∙ length-append r.counted r.rest in
    let counts : r.last.num_responds ≡ c.num_responds + length r.counted =
      omega (arith, r.counts) in
    elim (Bool-cases (ltb r.last.num_responds r.last.num_requests)) [
      | inl waits ↦
          let rest =
            reads-AllRead bs r.last r.rest r.valid r.stuck are.2 r.frames fits' r.stream
              (ltb→lt _ _ waits) (omega (arith, r.requests)) (omega (arith, r.requests)) in
          record {
            last = rest.last;
            returns = reads-open c r.last b bs false (rw waits at r.returns) ∙ rest.returns;
            counts = omega (arith, rest.counts);
            requests = rest.requests ∙ r.requests;
            empty = rest.empty;
          }
      | inr ends ↦
          let none_left : length r.rest ≡ 0 = omega (arith, ltb→le _ _ ends, r.requests) in
          record {
            last = r.last;
            returns = rw ends (reads-closed c r.last b bs true (rw ends at r.returns));
            counts = omega arith;
            requests = r.requests;
            empty = omega (
              arith,
              ap length r.stream,
              length-append (held r.last) (arrived bs),
              length-bytes_of r.last.buffer.byte r.last.sz_data,
              join-empty r.rest none_left,
            );
          }
    ]
  where
    join-empty : (qs : List (List ℕ)) → length qs ≡ 0 → length (join qs) ≡ 0
    join-empty [] h = refl
    join-empty (q ∷ qs) h = absurd (omega arith)
