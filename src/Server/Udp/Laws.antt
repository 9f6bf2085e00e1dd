-- ===== src/Server/Udp/Laws.antt =====
-- The replies of edio24_svr_process_udp of src/libedio24.c to the open and discovery messages.
use libedio.Base.{ℕ, ◌+◌, ◌-◌, ◌≤◌, ◌%◌, ◌≡◌, arith, some, Bool, true, false}
use libedio.Base.{
  Bool-cases, ltb→le, inl, inr, [], ◌∷◌, memset, Buffer, load_lem, store_lem, store_all_lem,
  memset_lem, copied, update, write_all,
}
use libedio.Base.{pos, ltb, le→ltb, if◌then◌else◌}
use libedio.Server.Udp.{Datagram, netbios_name, describe, svr_process_udp}

abbrev pub shown : Buffer → ℕ → ℕ → Datagram
shown out sz_out needed_out = record {
  buffer_out = some out;
  sz_out = some sz_out;
  sz_needed_out = some needed_out;
}

-- memory as the description of the device is written: the ids, the name, the rest
abbrev ids : (ℕ → ℕ) → ℕ → ℕ
ids m = update (copied m 0 (λ _. 0) 64) 0 b'D'

abbrev versions : (ℕ → ℕ) → ℕ → ℕ
versions m = copied (copied (copied (ids m) 1 (λ _. 1) 6) 7 (λ _. 2) 2) 9 (λ _. 3) 2

abbrev named : (ℕ → ℕ) → ℕ → ℕ
named m = write_all (versions m) netbios_name

abbrev ports : (ℕ → ℕ) → ℕ → ℕ
ports m = copied (copied (named m) 27 (λ _. 4) 2) 29 (λ _. 5) 4

abbrev pub described : (ℕ → ℕ) → ℕ → ℕ
described m = copied (copied (copied (ports m) 33 (λ _. 6) 2) 35 (λ _. 7) 4) 39 (λ _. 8) 2

module _ (out : Buffer) (h : 64 ≤ out.cap) where
  set_bytes :
      (m : ℕ → ℕ) (off v n : ℕ)
      → off + n ≤ 64
      → memset (record out { byte = m }) off v n
        ≡ some (record out { byte = copied m off (λ _. v % 256) n })
  set_bytes m off v n k = memset_lem (record out { byte = m }) off v n (omega arith)

  pub describe_lem : describe out ≡ some (record out { byte = described out.byte })
  unfolding describe
  describe_lem = rw (
    set_bytes out.byte 0 0 64 (omega arith),
    store_lem (record out { byte = copied out.byte 0 (λ _. 0) 64 }) 0 b'D' (omega arith),
    set_bytes (ids out.byte) 1 1 6 (omega arith),
    set_bytes (copied (ids out.byte) 1 (λ _. 1) 6) 7 2 2 (omega arith),
    set_bytes (copied (copied (ids out.byte) 1 (λ _. 1) 6) 7 (λ _. 2) 2) 9 3 2 (omega arith),
    store_all_lem (record out { byte = versions out.byte }) netbios_name (omega arith),
    set_bytes (named out.byte) 27 4 2 (omega arith),
    set_bytes (copied (named out.byte) 27 (λ _. 4) 2) 29 5 4 (omega arith),
    set_bytes (ports out.byte) 33 6 2 (omega arith),
    set_bytes (copied (ports out.byte) 33 (λ _. 6) 2) 35 7 4 (omega arith),
    set_bytes (copied (copied (ports out.byte) 33 (λ _. 6) 2) 35 (λ _. 7) 4) 39 8 2 (omega arith),
  )

module _ (b out : Buffer) (sz_in sz_out needed : ℕ) (some_in : 1 ≤ sz_in)
    (room : sz_in ≤ b.cap) where
  -- A discovery message is answered with the 64 bytes of the description where the buffer has room
  -- for them, asks for the missing bytes where it has not, and goes unanswered on a forced failure.
  pub svr_process_udp-discover :
      (force_fail : Bool)
      → b.byte 0 ≡ b'D'
      → sz_out ≤ out.cap
      → svr_process_udp force_fail (some b) sz_in (shown out sz_out needed)
        ≡ some (
            if force_fail
            then (pos 0, shown out 0 0)
            else if ltb sz_out 64
            then (pos 1, shown out sz_out (64 - sz_out))
            else (pos 0, shown (record out { byte = described out.byte }) 64 0))
  unfolding svr_process_udp
  svr_process_udp-discover true d fits = rw (le→ltb sz_in 1 some_in, load_lem b 0 (omega arith), d)
  svr_process_udp-discover false d fits =
      rw (le→ltb sz_in 1 some_in, load_lem b 0 (omega arith), d)
        (elim (Bool-cases (ltb sz_out 64)) [
          | inl short ↦ rw short
          | inr long ↦ rw (long, describe_lem out (omega (arith, ltb→le _ _ long)))
        ])

  -- An open message is answered with 'C' and 0, or 'C' and 1 on a forced failure.
  pub svr_process_udp-open :
      (force_fail : Bool)
      → b.byte 0 ≡ b'C'
      → 2 ≤ sz_out
      → sz_out ≤ out.cap
      → svr_process_udp force_fail (some b) sz_in (shown out sz_out needed)
        ≡ some (
          pos 0,
          shown
              (record out {
                byte =
                    write_all out.byte
                      ((0, b'C') ∷ (1, 0) ∷ (if force_fail then (1, 1) ∷ [] else []));
              })
              2
              0,
        )
  unfolding svr_process_udp
  svr_process_udp-open true d long fits = rw (
    le→ltb sz_in 1 some_in,
    load_lem b 0 (omega arith),
    d,
    le→ltb sz_out 2 long,
    store_all_lem out ((0, b'C') ∷ (1, 0) ∷ []) (omega arith),
    store_lem (record out { byte = write_all out.byte ((0, b'C') ∷ (1, 0) ∷ []) }) 1 1
        (omega arith),
  )
  svr_process_udp-open false d long fits = rw (
    le→ltb sz_in 1 some_in,
    load_lem b 0 (omega arith),
    d,
    le→ltb sz_out 2 long,
    store_all_lem out ((0, b'C') ∷ (1, 0) ∷ []) (omega arith),
  )
