-- ===== src/Bridge/Socket.antt =====
-- sc_bridge_send_all and sc_bridge_recv_all of smarteth_sc_bridge.c. What `write` and `read` do is a
-- list of answers of the kernel: `some n` moves up to n + 1 of the bytes asked for, `none` is a
-- return value of 0 or below. Where the list ends the call blocks.
pub mod Streams
use smart_eth.Base.{
  ℕ, zero, suc, ◌+◌, ◌-◌, ◌==◌, Bool, true, false, Option, none, some, List, [], ◌∷◌, ◌++◌,
  if◌then◌else◌, length, take, drop, min,
}

pub data Outcome : Type 0 where
  done failed blocked : Outcome

-- How the loop ended, the bytes that it moved and those that it left.
pub record Transfer : Type 0 where
  pub outcome : Outcome
  pub moved : List ℕ
  pub rest : List ℕ

abbrev ended : Outcome → List ℕ → Transfer
ended o bytes = record { outcome = o; moved = []; rest = bytes }

abbrev prepend : List ℕ → Transfer → Transfer
prepend bytes t = record t { moved = bytes ++ t.moved }

abbrev pub behind : Outcome → List ℕ → List ℕ
behind done later = later
behind failed later = later
behind blocked later = []

-- The loop of `sc_bridge_send_all` over the bytes still to be written.
unfoldable pub send_all : List (Option ℕ) → List ℕ → Transfer
send_all answers [] = ended done []
send_all [] (b ∷ bs) = ended blocked (b ∷ bs)
send_all (none ∷ answers) (b ∷ bs) = ended failed (b ∷ bs)
send_all (some n ∷ answers) (b ∷ bs) =
    prepend (take (suc n) (b ∷ bs)) (send_all answers (drop n bs))

-- A message of the bridge with the kernel's answers to its `write`s.
abbrev pub Send : Type 0
Send = List (Option ℕ) × List ℕ

-- The messages that the bridge sends, as bytes on the wire.
-- Who sends ignores the result, so the next message follows what there is of one that failed; a call
-- that blocks does not come back.
unfoldable pub transmit : List Send → List ℕ
unfolding send_all
transmit [] = []
transmit ((answers, bytes) ∷ sends) =
    let t = send_all answers bytes in t.moved ++ behind t.outcome (transmit sends)

-- The loop of `sc_bridge_recv_all` with bytes still to be read, at most as many as asked for, out of
-- all that the peer sends before it closes its end.
unfoldable pub recv_all : List (Option ℕ) → ℕ → List ℕ → Transfer
recv_all answers zero stream = ended done stream
recv_all [] (suc len) stream = ended blocked stream
recv_all (none ∷ answers) (suc len) stream = ended failed stream
recv_all (some n ∷ answers) (suc len) [] = ended failed []
recv_all (some n ∷ answers) (suc len) (b ∷ bs) =
    let got = take (suc (min n len)) (b ∷ bs) in
    prepend got (recv_all answers (suc len - length got) (drop (suc (min n len)) (b ∷ bs)))
