-- ===== src/Exchange/Conversation/Tests.antt =====
-- Conversations about the switches of a device, every byte of them in a read of its own.
use libedio.Base.{ℕ, ◌*◌, arith, true, List, [], ◌∷◌, some}
use libedio.Samples.{no_chance}
use libedio.Stream.{ArePieces, one_by_one, one_by_one-arrived, one_by_one-ArePieces}
use libedio.Tools.Command.{Line, dconfig_w, dout_w, blank}
use libedio.Tools.Generate.{do_setpower, do_setatten}
use libedio.Simulator.State.{Turn}
use libedio.Exchange.Commands.Follows.{AreBytes, AllPrinted}
use libedio.Exchange.Conversation.Attenuators.{
  Attenuated, atten_file, attenuated, latches, do_setatten-Attenuated,
}
use libedio.Tools.Samples.{
  one_row, one_row-IsBoardList, one_row-AllRows, cluster_one, pins_one_three, first_to_31,
  parsed_one, parsed_one_three, parsed_first,
}
use libedio.Exchange.Conversation.Switches.{Switched, switch_file, switched, do_setpower-Switched}
use libedio.Exchange.Conversation.{log_of, messages_of, outgoing, outbox}
use libedio.Exchange.Conversation.Ends.{
  Conversation, run, served, read, run-AllBytes, served-AllBytes,
}

abbrev clear : ℕ → (ℕ → ℕ) × (ℕ → ℕ)
clear position = (λ _. 0, λ _. 0)

clear-AreBytes : AreBytes clear
clear-AreBytes position = (λ i. omega arith, λ i. omega arith)

-- what the generator writes for a mask of switches
abbrev switches : List Line
switches = dconfig_w 0xFFFFFF 0 ∷ dout_w 0xFF 0x25 ∷ blank ∷ []

-- The simulator fails by chance.
abbrev turns : ℕ → ℕ → ℕ → Turn
turns read call round = record { coin = 0; chance = no_chance; fresh = λ _. 7 }

-- what is sent, and what comes back
abbrev sent : List ℕ
sent = outgoing (log_of (run clear switches [] 0 0 0 0 5000000 true turns))

abbrev answered : List ℕ
answered =
    outbox (messages_of (served clear switches [] 0 0 0 0 5000000 true turns (one_by_one sent)))

-- what do_setpower writes for them
abbrev written : List Line
written = switch_file one_row 2 10

written-AllPrinted : AllPrinted written
written-AllPrinted = omega arith

-- what is sent for it, and what comes back
abbrev sent_for : List ℕ
sent_for = outgoing (log_of (run clear written [] 0 0 0 0 5000000 true turns))

abbrev answered_to : List ℕ
answered_to =
    outbox (messages_of (served clear written [] 0 0 0 0 5000000 true turns (one_by_one sent_for)))

sent_for-ArePieces : ArePieces (one_by_one sent_for)
sent_for-ArePieces = one_by_one-ArePieces sent_for (
    run-AllBytes clear written [] 0 0 0 0 5000000 true turns clear-AreBytes written-AllPrinted tt
      (omega arith))

answered_to-ArePieces : ArePieces (one_by_one answered_to)
answered_to-ArePieces = one_by_one-ArePieces answered_to (
    served-AllBytes clear written [] 0 0 0 0 5000000 true turns clear-AreBytes written-AllPrinted tt
      (omega arith) (one_by_one sent_for) sent_for-ArePieces (one_by_one-arrived sent_for))

do_setpower-Switched_example :
    Switched
      (do_setpower one_row (λ _. 0) (some cluster_one) (some pins_one_three))
      written
      (switched one_row 2)
      (run clear written [] 0 0 0 0 5000000 true turns)
      (served clear written [] 0 0 0 0 5000000 true turns (one_by_one sent_for))
      (read clear written [] 0 0 0 0 5000000 true turns (one_by_one answered_to))
do_setpower-Switched_example =
    do_setpower-Switched one_row (λ _. 0) (some cluster_one) (some pins_one_three) 2 10 0 0 clear []
      0 0 0 0 5000000 true turns (one_by_one sent_for) (one_by_one answered_to) one_row-IsBoardList
      one_row-AllRows (omega arith) parsed_one parsed_one_three (omega arith) clear-AreBytes
      (omega arith) sent_for-ArePieces (one_by_one-arrived sent_for) answered_to-ArePieces
      (one_by_one-arrived answered_to)

-- what do_setatten writes for an odd value
abbrev lines_written : List Line
lines_written = atten_file one_row 2 1 31

lines_written-AllPrinted : AllPrinted lines_written
lines_written-AllPrinted = omega arith

-- what is sent for it, and what comes back
abbrev sent_then : List ℕ
sent_then = outgoing (log_of (run clear lines_written [] 0 0 0 0 5000000 true turns))

abbrev answered_then : List ℕ
answered_then =
    outbox (
      messages_of (served clear lines_written [] 0 0 0 0 5000000 true turns (one_by_one sent_then)))

sent_then-ArePieces : ArePieces (one_by_one sent_then)
sent_then-ArePieces = one_by_one-ArePieces sent_then (
    run-AllBytes clear lines_written [] 0 0 0 0 5000000 true turns clear-AreBytes
      lines_written-AllPrinted tt (omega arith))

answered_then-ArePieces : ArePieces (one_by_one answered_then)
answered_then-ArePieces = one_by_one-ArePieces answered_then (
    served-AllBytes clear lines_written [] 0 0 0 0 5000000 true turns clear-AreBytes
      lines_written-AllPrinted tt (omega arith) (one_by_one sent_then) sent_then-ArePieces
      (one_by_one-arrived sent_then))

do_setatten-Attenuated_example :
    Attenuated
      (do_setatten one_row (λ _. 0) (some cluster_one) (some first_to_31))
      lines_written
      (attenuated one_row 2 * latches 31)
      (run clear lines_written [] 0 0 0 0 5000000 true turns)
      (served clear lines_written [] 0 0 0 0 5000000 true turns (one_by_one sent_then))
      (read clear lines_written [] 0 0 0 0 5000000 true turns (one_by_one answered_then))
do_setatten-Attenuated_example =
    do_setatten-Attenuated one_row (λ _. 0) (some cluster_one) (some first_to_31) 2 1 0 31 clear []
      0 0 0 0 5000000 true turns (one_by_one sent_then) (one_by_one answered_then)
      one_row-IsBoardList one_row-AllRows (omega arith) parsed_one parsed_first (omega arith)
      clear-AreBytes (omega arith) sent_then-ArePieces (one_by_one-arrived sent_then)
      answered_then-ArePieces (one_by_one-arrived answered_then)
