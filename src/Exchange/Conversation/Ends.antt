-- ===== src/Exchange/Conversation/Ends.antt =====
-- How a conversation of utils/edio24cli.c with utils/edio24sim.c ends.
use libedio.Base.{
  ℕ, suc, ◌+◌, ◌*◌, ◌^◌, ◌<◌, ◌≡◌, ◌∙◌, refl, sym, ap, arith, inl, Bool, false, some, Option, List,
  [], ◌∷◌, Buffer, not, ltb, pos, ℤ,
}
use mathlib.Core.Path.{subst}
use libedio.Text.{length}
use libedio.Stream.{arrived, ArePieces, AllBytes}
use libedio.Tools.Command.{Line}
use libedio.Tools.Command.Text.{file_text}
use libedio.Cli.State as OfClient
use libedio.Cli.State.{Console, IsConsole}
use libedio.Cli.Command.{Done}
use libedio.Cli.Connect.{Sending, on_tcp_cli_connect}
use libedio.Cli.Process.Laws.{IsStuck}
use libedio.Cli.Receive as ClientReads
use libedio.Cli.Stream.Reads as Client
use libedio.Simulator.State as OfDevice
use libedio.Simulator.State.{Device, IsDevice, Message, Turn, sizeof_buffer}
use libedio.Simulator.Receive as DeviceReads
use libedio.Simulator.Stream.{Answers}
use libedio.Simulator.Stream.Reads as Simulator
use libedio.Simulator.Session.{initial-IsDevice}
use libedio.Exchange.Commands.Follows.{AllPrinted, AreBytes, on_tcp_cli_connect-Follows}
use libedio.Exchange.Conversation.{
  outgoing, outbox, AreWrites, writes, pauses, log_of, console_of, messages_of,
}
use libedio.Exchange.Conversation.Requests.{Requests, Follows-Requests}
use libedio.Exchange.Conversation.Replies.{Replies, Answers-Replies, Answers-AllBytes}

-- What the client comes to: a reply to each write, and the end of the program exactly if the file has
-- no pause, which is counted as a request and never answered.
pub record Ends (lines : List Line) (result : ClientReads.Outcome) : Type 0 where
  pub last : Console
  pub returns : result ≡ ClientReads.returned last (ltb (pauses lines) 1) (ltb (pauses lines) 1)
  pub replies : last.num_responds ≡ writes lines
  pub requests : last.num_requests ≡ writes lines + pauses lines

initial-IsConsole : (starttime timeout : ℕ) → IsConsole (OfClient.initial starttime timeout)
unfolding OfClient.initial
initial-IsConsole starttime timeout = record {
  size = refl;
  held = omega arith;
  bytes = λ i. omega arith;
}

length-Answers :
    (ps : List (List ℕ)) (messages : List Message)
    → Answers ps messages
    → length messages ≡ length ps
length-Answers [] [] a = refl
length-Answers [] (m ∷ messages) a = absurd a
length-Answers (p ∷ ps) [] a = absurd a
length-Answers (p ∷ ps) (m ∷ messages) a = ap suc (length-Answers ps messages a.1)

-- The tests of the client's end.
no_pause :
    (c : Console) (w p : ℕ)
    → c.num_responds ≡ w
    → c.num_requests ≡ w + p
    → not (ltb c.num_responds c.num_requests) ≡ ltb p 1
no_pause c w p e k = ground arith

-- The client behind the run over its file, with nothing held.
client-Ends :
    (lines : List Line) (c last : Console) (log : List Done) (messages : List Message)
    (pieces : List Buffer)
    → IsConsole c
    → c.num_requests ≡ 0
    → c.num_responds ≡ 0
    → c.sz_data ≡ 0
    → 0 < writes lines + pauses lines
    → writes lines + pauses lines < 2 ^ 64
    → (r : Requests c lines log last) → Answers r.packets messages
    → ArePieces pieces
    → arrived pieces ≡ outbox messages
    → Ends lines (Client.reads last pieces)
client-Ends lines c last log messages pieces v none_sent none_counted clear some_line few r answers
      are e =
    let w : Replies (length r.packets) messages =
      Answers-Replies r.packets messages r.kind answers in
    let empty : last.sz_data ≡ 0 = r.same_rest.1 ∙ clear in
    let v' : IsConsole last = record {
      size = ap (λ (b : Buffer). b.cap) r.same_rest.2 ∙ v.size;
      held = omega (arith, empty);
      bytes = subst (λ (b : Buffer). (i : ℕ) → b.byte i < 256) (sym r.same_rest.2) v.bytes;
    } in
    let stuck : IsStuck last = inl (λ whole. omega (arith, whole.0, empty)) in
    let requests : last.num_requests ≡ writes lines + pauses lines = omega (arith, r.requests) in
    let responds : last.num_responds ≡ 0 = r.same_rest.0 ∙ none_counted in
    let all =
      Client.reads-AllRead pieces last w.packets v' stuck are w.frames w.fit
        (rw empty (e ∙ w.stream)) (omega arith) (omega (arith, w.counted, r.number))
        (omega arith) in
    let counted : all.last.num_responds ≡ writes lines =
      omega (arith, all.counts, w.counted, r.number) in
    let asked : all.last.num_requests ≡ writes lines + pauses lines = all.requests ∙ requests in
    record {
      last = all.last;
      returns =
          all.returns
          ∙ ap (λ (b : Bool). ClientReads.returned all.last b b)
              (no_pause all.last (writes lines) (pauses lines) counted asked);
      replies = counted;
      requests = asked;
    }

-- How a whole conversation goes: what the client sends, what the simulator answers, and the client's
-- end. `run` is the client's run over its file, `served` what the simulator makes of what arrives
-- there, and `read` what the client makes of the answers.
pub record Conversation (lines : List Line) (run : Option (ℤ × Sending))
    (served : DeviceReads.Outcome) (read : ClientReads.Outcome) : Type 0 where
  pub sending : Sending
  pub device : Device
  pub messages : List Message
  pub runs : run ≡ some (pos 0, sending)
  pub serves : served ≡ DeviceReads.returned device messages false
  pub answers : length messages ≡ writes lines
  pub nothing_left : device.sz_data ≡ 0
  pub ends : Ends lines read

module _ (junk : ℕ → (ℕ → ℕ) × (ℕ → ℕ)) (lines : List Line) (buffer : List ℕ)
    (starttime timeout starttime' timeout' deep : ℕ) (flg_randfail : Bool)
    (turns : ℕ → ℕ → ℕ → Turn) where
  -- the two that were just started, and the client's run over its file
  abbrev pub client : Console
  client = OfClient.initial starttime timeout

  abbrev pub device : Device
  device = OfDevice.initial starttime' timeout' flg_randfail

  abbrev pub run : Option (ℤ × Sending)
  run = on_tcp_cli_connect junk (some buffer) client (some (file_text lines))

  -- what the simulator makes of what arrives, and the client of what comes back
  abbrev pub served : List Buffer → DeviceReads.Outcome
  served pieces = Simulator.reads deep turns 0 device [] pieces

  abbrev pub read : List Buffer → ClientReads.Outcome
  read pieces = Client.reads (console_of client run) pieces

  module _ (bytes : AreBytes junk) (printed : AllPrinted lines) (are_writes : AreWrites lines)
      (enough : sizeof_buffer * 70000 + 65543 < deep) where
    -- The run ends, and sends packets that write pins.
    record Runs : Type 0 where
      log : List Done
      last : Console
      runs : run ≡ some (pos 0, record { console = last; log = log })
      requests : Requests client lines log last

    run-Runs : Runs
    unfolding OfClient.initial
    run-Runs =
        let (log, last, ran, follows) =
          on_tcp_cli_connect-Follows junk bytes lines client buffer printed (omega arith) in
        record {
          log = log;
          last = last;
          runs = ran;
          requests = Follows-Requests client lines log last (omega arith) are_writes follows;
        }

    pub run-AllBytes : AllBytes (outgoing (log_of run))
    run-AllBytes =
        let r = run-Runs in
        subst (λ (x : Option (ℤ × Sending)). AllBytes (outgoing (log_of x))) (sym r.runs)
          r.requests.bytes

    module _ (pieces : List Buffer) (are : ArePieces pieces)
        (e : arrived pieces ≡ outgoing (log_of run)) where
      served-AllAnswered : (r : Runs) → Simulator.AllAnswered r.requests.packets [] (served pieces)
      unfolding OfDevice.initial
      served-AllAnswered r =
          Simulator.reads-AllAnswered pieces deep turns 0 device [] r.requests.packets enough
            (initial-IsDevice starttime' timeout' flg_randfail)
            (inl (λ whole. omega (arith, whole.0))) are r.requests.frames r.requests.fit
            (e
              ∙ (ap (λ (x : Option (ℤ × Sending)). outgoing (log_of x)) r.runs ∙ r.requests.stream))

      pub served-AllBytes : AllBytes (outbox (messages_of (served pieces)))
      served-AllBytes =
          let r = run-Runs in
          let all = served-AllAnswered r in
          subst (λ (x : DeviceReads.Outcome). AllBytes (outbox (messages_of x))) (sym all.returns)
            (Answers-AllBytes r.requests.packets all.replies r.requests.kind
              (subst AllBytes r.requests.stream r.requests.bytes) all.answers)

      pub read-Conversation :
          (pieces' : List Buffer)
          → 0 < writes lines + pauses lines
          → writes lines + pauses lines < 2 ^ 64
          → ArePieces pieces'
          → arrived pieces' ≡ outbox (messages_of (served pieces))
          → Conversation lines run (served pieces) (read pieces')
      unfolding OfClient.initial
      read-Conversation pieces' some_line few are' e' =
          let r = run-Runs in
          let q = r.requests in
          let all = served-AllAnswered r in
          let answered : arrived pieces' ≡ outbox all.replies =
            e' ∙ ap (λ (x : DeviceReads.Outcome). outbox (messages_of x)) all.returns in
          record {
            sending = record { console = r.last; log = r.log };
            device = all.last;
            messages = all.replies;
            runs = r.runs;
            serves = all.returns;
            answers = length-Answers q.packets all.replies all.answers ∙ q.number;
            nothing_left = all.empty;
            ends =
                subst
                  (λ (x : Option (ℤ × Sending)).
                    Ends lines (Client.reads (console_of client x) pieces'))
                  (sym r.runs)
                  (client-Ends lines client r.last r.log all.replies pieces'
                    (initial-IsConsole starttime timeout) refl refl refl some_line few q all.answers
                    are' answered);
          }
