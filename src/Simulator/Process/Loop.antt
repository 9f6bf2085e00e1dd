-- ===== src/Simulator/Process/Loop.antt =====
-- The loop of edio24svr_process_data of utils/edio24sim.c: what it takes, and where it ends.
use libedio.Base.{
  ℕ, zero, suc, ◌+◌, ◌-◌, ◌*◌, ◌^◌, ◌≤◌, ◌<◌, ◌≡◌, refl, ◌∙◌, sym, ap, arith, some, ◌⊎◌, inl, inr,
  List, [], ◌∷◌, ◌++◌,
}
use mathlib.Core.List.{append_assoc, append-nil}
use mathlib.Core.Path.{subst}
use libedio.Packet.Verify.Laws.{count_of, IsWhole}
use libedio.Simulator.State.{Device, IsDevice, Message, Turn}
use libedio.Simulator.Process.{Round, stop, again, Run, finished, round, rounds, svr_process_data}
use libedio.Simulator.Process.Laws.{
  shifted, shifted-IsDevice, waiting, rejected, answered, grown, round-Advance, Blocked, IsAnswer,
  message,
}

-- Whole packets taken from the head of the data, one after the other, and the message that each is
-- answered with.
pub data Drained : Device → Device → List Message → Type 0 where
  none_left : {d : Device} → Drained d d []
  packet :
      {d d' : Device} {replies : List Message} (reply : Message)
      → IsWhole d.buffer.byte d.sz_data
      → IsAnswer d.buffer.byte d.sz_data reply
      → Drained
          (shifted (d.sz_data - (7 + count_of d.buffer.byte)) (7 + count_of d.buffer.byte) d)
          d'
          replies
      → Drained d d' (reply ∷ replies)

-- What a run does to the device, and the messages that it sends: the answers, and then, only where the
-- data begin with a packet that has all its bytes, and is damaged or unknown, one more.
pub record Ran (d d' : Device) (sent : List Message) : Type 0 where
  pub replies : List Message
  pub junk : List Message
  pub drained : Drained d d' replies
  pub all : sent ≡ replies ++ junk
  pub junk_only : (junk ≡ []) ⊎ (Blocked d' × (7 + count_of d'.buffer.byte ≤ d'.sz_data))

-- A run that ended, and where; `before` is what was sent before it.
pub record Ended (d : Device) (before : List Message) (run : Run) : Type 0 where
  pub last : Round
  pub sent : List Message
  pub finishes : run ≡ finished last
  pub sends : last.sent ≡ before ++ sent
  pub ran : Ran d last.device sent
  pub valid : IsDevice last.device
  pub no_more : last.device.sz_data ≤ d.sz_data
  pub blocked : Blocked last.device

-- Each round takes data, or makes the buffer for replies longer, which ends at the longest reply.
abbrev pub measure : Round → ℕ
measure r = r.device.sz_data * 70000 + (7 + 2 ^ 16 - r.buf.cap)

-- the rounds behind one that asks for another
next_round :
    (fuel : ℕ) (turns : ℕ → Turn) (k : ℕ) (r r' : Round)
    → round (turns k) r ≡ some (again r')
    → rounds (suc fuel) turns k r ≡ rounds fuel turns (k + 1) r'
unfolding rounds
next_round fuel turns k r r' e = rw (e, rounds)

last_round :
    (fuel : ℕ) (turns : ℕ → Turn) (k : ℕ) (r r' : Round)
    → round (turns k) r ≡ some (stop r')
    → rounds (suc fuel) turns k r ≡ finished r'
unfolding rounds
last_round fuel turns k r r' e = rw (e, rounds)

rounds-Ended :
    (fuel : ℕ) (turns : ℕ → Turn) (k : ℕ) (r : Round)
    → IsDevice r.device
    → 1 ≤ r.buf.cap
    → measure r < fuel
    → Ended r.device r.sent (rounds fuel turns k r)
rounds-Ended zero turns k r v some_room m = absurd (omega arith)
rounds-Ended (suc fuel) turns k r v some_room m = elim (round-Advance (turns k) r v some_room) [
  | waiting r' e same sent stuck ↦ record {
    last = r';
    sent = [];
    finishes = last_round fuel turns k r r' e;
    sends = sent ∙ sym (append-nil r.sent);
    ran = record {
      replies = [];
      junk = [];
      drained = rw same none_left;
      all = refl;
      junk_only = inl refl;
    };
    valid = rw same v;
    no_more = rw same (omega arith);
    blocked = rw same stuck;
  }
  | rejected r' e same sent stuck long ↦ record {
    last = r';
    sent = message (turns k).fresh r.buf.cap r.buf ∷ [];
    finishes = last_round fuel turns k r r' e;
    sends = sent;
    ran = record {
      replies = [];
      junk = message (turns k).fresh r.buf.cap r.buf ∷ [];
      drained = rw same none_left;
      all = refl;
      junk_only = inr (rw same stuck, rw same long);
    };
    valid = rw same v;
    no_more = rw same (omega arith);
    blocked = rw same stuck;
  }
  | answered r' reply e w same sent kept answer ↦
      let n : ℕ = 7 + count_of r.device.buffer.byte in
      let v' : IsDevice r'.device =
        rw same (shifted-IsDevice (r.device.sz_data - n) n r.device v (omega arith)) in
      let less : r'.device.sz_data ≡ r.device.sz_data - n = rw same refl in
      let rest : Ended r'.device r'.sent (rounds fuel turns (k + 1) r') =
        rounds-Ended fuel turns (k + 1) r' v' (omega arith) (omega (arith, w.0)) in
      record {
        last = rest.last;
        sent = reply ∷ rest.sent;
        finishes = next_round fuel turns k r r' e ∙ rest.finishes;
        sends =
            rest.sends
            ∙ (ap (λ (s : List Message). s ++ rest.sent) sent
                ∙ append_assoc r.sent (reply ∷ []) rest.sent);
        ran = record {
          replies = reply ∷ rest.ran.replies;
          junk = rest.ran.junk;
          drained =
              packet reply w answer
                (subst (λ x. Drained x rest.last.device rest.ran.replies) same rest.ran.drained);
          all = ap (◌∷◌ reply) rest.ran.all;
          junk_only = rest.ran.junk_only;
        };
        valid = rest.valid;
        no_more = omega (arith, rest.no_more);
        blocked = rest.blocked;
      }
  | grown r' e w same sent more most ↦
      let v' : IsDevice r'.device = rw same v in
      let less : r'.device.sz_data ≡ r.device.sz_data = rw same refl in
      let rest : Ended r'.device r'.sent (rounds fuel turns (k + 1) r') =
        rounds-Ended fuel turns (k + 1) r' v' (omega arith) (omega arith) in
      record {
        last = rest.last;
        sent = rest.sent;
        finishes = next_round fuel turns k r r' e ∙ rest.finishes;
        sends = rest.sends ∙ ap (λ (s : List Message). s ++ rest.sent) sent;
        ran = subst (λ x. Ran x rest.last.device rest.sent) same rest.ran;
        valid = rest.valid;
        no_more = omega (arith, rest.no_more);
        blocked = rest.blocked;
      }
]

-- The loop over the received data ends, without a failed assertion or an access outside a buffer: on a
-- device whose bytes fit its buffer, and with fuel above 70000 rounds for each held byte and 65543
-- more, it finishes, having taken whole packets from the head of the data one after the other and sent
-- a message for each; what is left cannot be served as it is: no whole packet, or an unknown command.
-- One more message is sent at most, and only where what is left has the length of a packet.
pub svr_process_data-Ended :
    (fuel : ℕ) (turns : ℕ → Turn) (d : Device)
    → IsDevice d
    → d.sz_data * 70000 + 65543 < fuel
    → Ended d [] (svr_process_data fuel turns d)
unfolding svr_process_data
svr_process_data-Ended fuel turns d v h = rounds-Ended fuel turns 0 _ v (omega arith) (omega arith)
