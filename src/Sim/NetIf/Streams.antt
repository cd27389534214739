-- ===== src/Sim/NetIf/Streams.antt =====
-- What transmit sends is what a listener hears, up to the longest frame that it takes.
use smart_eth.Base.{
  ℕ, suc, ◌≤◌, ◌<◌, ◌^◌, ◌≡◌, ◌⊎◌, inl, inr, ◌∙◌, refl, ap, arith, true, false, Option, none, some,
  List, [], ◌∷◌, ◌++◌, length, min, take-all, drop-all, if_true, if_false, ◌||◌, ltb, ◌==◌,
}
use mathlib.Core.List.{append_assoc}
use smart_eth.Bridge.Socket.{recv_all}
use smart_eth.Bridge.Socket.Streams.{AllPositive, recv_all-front}
use smart_eth.Bridge.Wire.{le32}
use smart_eth.Bridge.Wire.Framing.{u32_at-le32}
use smart_eth.Sim.NetIf.{NetIf, transmit, written}
use smart_eth.Sim.NetIf.Listener.{
  Round, Heard, frame, max_frame, hear, hear_frame, read_length, read_frame, listen_loop, dispatch,
  delivered, by_outcome,
}

-- A `write`, or the `read` of a length, that moves the whole of `n` bytes.
abbrev pub Whole : Option ℕ → ℕ → Type 0
Whole none n = ⊥
Whole (some k) n = n ≤ suc k

written-Whole :
    (answer : Option ℕ) (bytes : List ℕ)
    → Whole answer (length bytes)
    → written answer bytes ≡ bytes
written-Whole none bytes h = absurd h
written-Whole (some k) bytes h = take-all (suc k) bytes h

pub transmit-Whole :
    (head body : Option ℕ) (bytes : List ℕ) (n : NetIf)
    → n.tx ≡ true
    → Whole head 4
    → Whole body (length bytes)
    → transmit head body bytes n ≡ le32 (length bytes) ++ bytes
unfolding transmit
transmit-Whole head body bytes n up hh hb = rw up (
    ap (λ (x : List ℕ). x ++ written body bytes) (written-Whole head (le32 (length bytes)) hh)
    ∙ ap (λ (x : List ℕ). le32 (length bytes) ++ x) (written-Whole body bytes hb))

read_length-Whole :
    (answer : Option ℕ) (junk : List ℕ) (v : ℕ) (later : List ℕ)
    → Whole answer 4
    → length junk ≡ 4
    → read_length answer junk (le32 v ++ later) ≡ some (le32 v, later)
read_length-Whole none junk v later h e = absurd h
read_length-Whole (some k) junk v later h e =
    let n : min (suc k) 4 ≡ 4 = omega arith in rw (n, drop-all 4 junk (omega arith)) refl

-- A round that goes on, reads the length in one piece and then some bytes in each call.
pub record Good (r : Round) (len : ℕ) : Type 0 where
  pub goes_on : r.stopped ≡ false
  pub whole : Whole r.head 4
  pub room : length r.junk ≡ 4
  pub positive : AllPositive r.body
  pub enough : len ≤ length r.body

pub hear-frame :
    (r : Round) (bytes later : List ℕ)
    → Good r (length bytes)
    → 1 ≤ length bytes
    → length bytes ≤ max_frame
    → hear r (le32 (length bytes) ++ bytes ++ later) ≡ frame bytes later
hear-frame r bytes later g lo hi =
    let small : length bytes < 2 ^ 32 = omega arith in
    let taken : ((length bytes == 0) || ltb max_frame (length bytes)) ≡ false = ground arith in
    ap (hear_frame r)
      (read_length-Whole r.head r.junk (length bytes) (bytes ++ later) g.whole g.room)
    ∙ ap (λ k. read_frame r.body k (bytes ++ later)) (u32_at-le32 (length bytes) [] small)
    ∙ if_false (Heard.passed_over (bytes ++ later))
        (by_outcome (recv_all r.body (length bytes) (bytes ++ later))
          (recv_all r.body (length bytes) (bytes ++ later)).outcome)
        taken
    ∙ ap (λ t. by_outcome t t.outcome)
        (recv_all-front r.body bytes later (length bytes) refl g.positive g.enough)

pub hear-passed_over :
    (r : Round) (v : ℕ) (later : List ℕ)
    → Good r 0
    → v < 2 ^ 32
    → (v ≡ 0) ⊎ (max_frame < v)
    → hear r (le32 v ++ later) ≡ Heard.passed_over later
hear-passed_over r v later g small out =
    let skipped : ((v == 0) || ltb max_frame v) ≡ true = ground arith in
    ap (hear_frame r) (read_length-Whole r.head r.junk v later g.whole g.room)
    ∙ ap (λ k. read_frame r.body k later) (u32_at-le32 v [] small)
    ∙ if_true (Heard.passed_over later)
        (by_outcome (recv_all r.body v later) (recv_all r.body v later).outcome) skipped

-- The frames that a peer sends one after the other, each with the kernel's answers to its writes.
abbrev pub Writes : Type 0
Writes = Option ℕ × Option ℕ

abbrev pub transmit_all : List Writes → List (List ℕ) → NetIf → List ℕ
transmit_all [] bytess n = []
transmit_all (w ∷ ws) [] n = []
transmit_all (w ∷ ws) (bytes ∷ bytess) n = transmit w.0 w.1 bytes n ++ transmit_all ws bytess n

-- For each frame, which is not too long, writes that take it whole and a round that reads it.
abbrev pub Carries : List Writes → List Round → List (List ℕ) → Type 0
Carries [] [] [] = Unit
Carries (w ∷ ws) (r ∷ rs) (bytes ∷ bytess) =
    Whole w.0 4
    × Whole w.1 (length bytes)
    × Good r (length bytes)
    × (length bytes ≤ max_frame)
    × Carries ws rs bytess
Carries _ _ _ = ⊥

-- What arrives of the frames: an empty one is passed over.
abbrev pub heard_of : List (List ℕ) → List (List ℕ)
heard_of [] = []
heard_of ([] ∷ bytess) = heard_of bytess
heard_of ((b ∷ bs) ∷ bytess) = (b ∷ bs) ∷ heard_of bytess

going_on :
    (r : Round) (rs : List Round) (stream : List ℕ) (n : NetIf)
    → r.stopped ≡ false
    → listen_loop (r ∷ rs) stream n ≡ dispatch (hear r stream) n (listen_loop rs)
unfolding listen_loop
going_on r rs stream n on = rw on refl

-- When two interfaces are joined, every write takes its whole piece and every length is read in one
-- piece, the frames of at most 16384 bytes that one end transmits arrive at the other end's callback
-- one by one, whole and in order, however their bytes are cut up; only empty ones are left out.
pub listen_loop-transmit_all :
    (writes : List Writes) (rounds : List Round) (frames : List (List ℕ)) (n peer : NetIf)
    → peer.tx ≡ true
    → Carries writes rounds frames
    → listen_loop rounds (transmit_all writes frames peer) n ≡ (heard_of frames, n)
unfolding listen_loop
listen_loop-transmit_all [] [] [] n peer up c = refl
listen_loop-transmit_all (w ∷ ws) (r ∷ rs) ([] ∷ bytess) n peer up (wh, wb, g, small, c) =
    let rest = transmit_all ws bytess peer in
    ap (λ (x : List ℕ). listen_loop (r ∷ rs) (x ++ rest) n)
      (transmit-Whole w.0 w.1 [] peer up wh wb)
    ∙ going_on r rs (le32 0 ++ rest) n g.goes_on
    ∙ ap (λ x. dispatch x n (listen_loop rs)) (hear-passed_over r 0 rest g (omega arith) (inl refl))
    ∙ listen_loop-transmit_all ws rs bytess n peer up c
listen_loop-transmit_all (w ∷ ws) (r ∷ rs) ((b ∷ bs) ∷ bytess) n peer up (wh, wb, g, small, c) =
    let bytes = b ∷ bs in
    let rest = transmit_all ws bytess peer in
    ap (λ (x : List ℕ). listen_loop (r ∷ rs) (x ++ rest) n)
      (transmit-Whole w.0 w.1 bytes peer up wh wb)
    ∙ going_on r rs (le32 (length bytes) ++ bytes ++ rest) n g.goes_on
    ∙ ap (λ x. dispatch x n (listen_loop rs)) (hear-frame r bytes rest g (omega arith) small)
    ∙ ap (delivered bytes) (listen_loop-transmit_all ws rs bytess n peer up c)
listen_loop-transmit_all _ _ _ n peer up c = absurd c

-- A frame of more than 16384 bytes is not skipped as a whole. Where it begins with the length of
-- a shorter frame and that frame's bytes, those are delivered as a frame of their own, and the rest
-- is read on as if lengths stood in it.
pub long_frame_taken_apart :
    (head body : Option ℕ) (r r' : Round) (rounds : List Round) (inner pad later : List ℕ)
    (n peer : NetIf)
    → peer.tx ≡ true
    → (let long = le32 (length inner) ++ inner ++ pad in
        Whole head 4
          × Whole body (length long)
          × Good r 0
          × Good r' (length inner)
          × (1 ≤ length inner)
          × (length inner ≤ max_frame)
          × (max_frame < length long)
          × (length long < 2 ^ 32)
        → listen_loop (r ∷ r' ∷ rounds) (transmit head body long peer ++ later) n
          ≡ delivered inner (listen_loop rounds (pad ++ later) n))
long_frame_taken_apart head body r r' rounds inner pad later n peer up
      (hh, hb, g, g', lo, hi, long, fits) =
    let whole = le32 (length inner) ++ inner ++ pad in
    let again = listen_loop (r' ∷ rounds) in
    let inside : whole ++ later ≡ le32 (length inner) ++ inner ++ (pad ++ later) =
      ap (λ (x : List ℕ). le32 (length inner) ++ x) (append_assoc inner pad later) in
    ap (λ (x : List ℕ). listen_loop (r ∷ r' ∷ rounds) (x ++ later) n)
      (transmit-Whole head body whole peer up hh hb)
    ∙ going_on r (r' ∷ rounds) (le32 (length whole) ++ whole ++ later) n g.goes_on
    ∙ ap (λ x. dispatch x n again)
        (hear-passed_over r (length whole) (whole ++ later) g fits (inr long))
    ∙ ap (λ x. again x n) inside
    ∙ going_on r' rounds (le32 (length inner) ++ inner ++ (pad ++ later)) n g'.goes_on
    ∙ ap (λ x. dispatch x n (listen_loop rounds)) (hear-frame r' inner (pad ++ later) g' lo hi)
