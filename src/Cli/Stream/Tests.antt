-- ===== src/Cli/Stream/Tests.antt =====
-- Two replies that reach the client in reads of one byte.
use libedio.Base.{ℕ, List, [], ◌∷◌}
use libedio.Cli.State.{Console}

-- the replies to DOutW and DConfigW, with frame numbers 0 and 1
abbrev first_reply : List ℕ
first_reply = 0xDB ∷ 0x83 ∷ 0 ∷ 0 ∷ 0 ∷ 0 ∷ 0xA1 ∷ []

abbrev second_reply : List ℕ
second_reply = 0xDB ∷ 0x85 ∷ 1 ∷ 0 ∷ 0 ∷ 0 ∷ 0x9E ∷ []

-- a client that waits for three replies
abbrev waiting : Console
waiting = record {
  frame = 3;
  num_requests = 3;
  num_responds = 0;
  starttime = 0;
  timeout = 0;
  sz_data = 0;
  buffer = record { cap = 1031; byte = λ _. 0 };
}
