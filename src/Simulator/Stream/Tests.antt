-- ===== src/Simulator/Stream/Tests.antt =====
-- Two requests that reach the simulator in reads of one byte.
use libedio.Base.{ℕ, refl, arith, inl, true, List, [], ◌∷◌, ◌++◌}
use libedio.Samples.{no_chance}
use libedio.Server.Tcp.{case_of}
use libedio.Stream.{one_by_one, one_by_one-ArePieces}
use libedio.Stream.Frames.{AllFrames}
use libedio.Simulator.State.{Device, IsDevice, Turn}
use libedio.Simulator.Stream.{is_request}
use libedio.Simulator.Stream.Reads.{reads, AllAnswered, reads-AllAnswered}

-- a status request, and DOutW with mask 0x0000FF and value 0x000025
abbrev status_text : List ℕ
status_text = 0xDB ∷ 0x52 ∷ 0 ∷ 0 ∷ 0 ∷ 0 ∷ 0xD2 ∷ []

abbrev write_text : List ℕ
write_text = 0xDB ∷ 0x03 ∷ 1 ∷ 0 ∷ 6 ∷ 0 ∷ 0xFF ∷ 0 ∷ 0 ∷ 0x25 ∷ 0 ∷ 0 ∷ 0xF6 ∷ []

requests_frames : AllFrames is_request (status_text ∷ write_text ∷ [])
unfolding case_of
requests_frames = (
  record { exact = refl; sound = (refl, refl) },
  (record { exact = refl; sound = (refl, refl) }, tt),
)

abbrev device : Device
device = record {
  flg_used = true;
  flg_randfail = true;
  starttime = 0;
  timeout = 0;
  sz_data = 0;
  buffer = record { cap = 65; byte = λ _. 0 };
}

device-IsDevice : IsDevice device
device-IsDevice = record { size = refl; held = omega arith; bytes = λ i. omega arith }

abbrev turns : ℕ → ℕ → ℕ → Turn
turns read call round = record { coin = read; chance = no_chance; fresh = λ _. 7 }

reads-AllAnswered_example :
    AllAnswered
      (status_text ∷ write_text ∷ [])
      []
      (reads 5000000 turns 0 device [] (one_by_one (status_text ++ write_text)))
reads-AllAnswered_example =
    reads-AllAnswered (one_by_one (status_text ++ write_text)) 5000000 turns 0 device []
      (status_text ∷ write_text ∷ []) (omega arith) device-IsDevice
      (inl (λ whole. omega (arith, whole.0)))
      (one_by_one-ArePieces (status_text ++ write_text) (omega arith)) requests_frames (omega arith)
      refl
