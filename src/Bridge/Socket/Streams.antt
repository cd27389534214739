-- ===== src/Bridge/Socket/Streams.antt =====
-- The loops move every byte once and in order, however the kernel cuts the transfer up.
use mathlib.Core.List.{append_assoc, append-nil}
use smart_eth.Base.{
  ℕ, zero, suc, ◌-◌, ◌≤◌, ◌≡◌, ◌∙◌, sym, refl, ap, arith, Option, none, some, List, [], ◌∷◌, ◌++◌,
  length, take, drop, min, length-take, length-drop, length-append, take-append-drop, append-front,
}
use smart_eth.Bridge.Socket.{Send, done, failed, behind, send_all, recv_all, transmit}

send_all-parts :
    (answers : List (Option ℕ)) (bytes : List ℕ)
    → (let t = send_all answers bytes in t.moved ++ t.rest ≡ bytes)
unfolding send_all
send_all-parts answers [] = refl
send_all-parts [] (b ∷ bs) = refl
send_all-parts (none ∷ answers) (b ∷ bs) = refl
send_all-parts (some n ∷ answers) (b ∷ bs) =
    let t = send_all answers (drop n bs) in
    append_assoc (take (suc n) (b ∷ bs)) t.moved t.rest
    ∙ ap (◌++◌ (take (suc n) (b ∷ bs))) (send_all-parts answers (drop n bs))
    ∙ take-append-drop (suc n) (b ∷ bs)

send_all-done :
    (answers : List (Option ℕ)) (bytes : List ℕ)
    → (send_all answers bytes).outcome ≡ done
    → (send_all answers bytes).rest ≡ []
unfolding send_all
send_all-done answers [] h = refl
send_all-done [] (b ∷ bs) h = cc
send_all-done (none ∷ answers) (b ∷ bs) h = cc
send_all-done (some n ∷ answers) (b ∷ bs) h = send_all-done answers (drop n bs) h

send_all-whole :
    (answers : List (Option ℕ)) (bytes : List ℕ)
    → (send_all answers bytes).outcome ≡ done
    → (send_all answers bytes).moved ≡ bytes
send_all-whole answers bytes over =
    let t = send_all answers bytes in
    sym (append-nil t.moved)
    ∙ ap (◌++◌ t.moved) (sym (send_all-done answers bytes over))
    ∙ send_all-parts answers bytes

recv_all-parts :
    (answers : List (Option ℕ)) (len : ℕ) (stream : List ℕ)
    → (let t = recv_all answers len stream in t.moved ++ t.rest ≡ stream)
unfolding recv_all
recv_all-parts answers zero stream = refl
recv_all-parts [] (suc len) stream = refl
recv_all-parts (none ∷ answers) (suc len) stream = refl
recv_all-parts (some n ∷ answers) (suc len) [] = refl
recv_all-parts (some n ∷ answers) (suc len) (b ∷ bs) =
    let got = take (suc (min n len)) (b ∷ bs) in
    let rest = drop (suc (min n len)) (b ∷ bs) in
    let t = recv_all answers (suc len - length got) rest in
    append_assoc got t.moved t.rest
    ∙ ap (◌++◌ got) (recv_all-parts answers (suc len - length got) rest)
    ∙ take-append-drop (suc (min n len)) (b ∷ bs)

recv_all-done :
    (answers : List (Option ℕ)) (len : ℕ) (stream : List ℕ)
    → (recv_all answers len stream).outcome ≡ done
    → length (recv_all answers len stream).moved ≡ len
unfolding recv_all
recv_all-done answers zero stream h = refl
recv_all-done [] (suc len) stream h = cc
recv_all-done (none ∷ answers) (suc len) stream h = cc
recv_all-done (some n ∷ answers) (suc len) [] h = cc
recv_all-done (some n ∷ answers) (suc len) (b ∷ bs) h =
    let got = take (suc (min n len)) (b ∷ bs) in
    let rest = drop (suc (min n len)) (b ∷ bs) in
    let t = recv_all answers (suc len - length got) rest in
    omega (
      arith,
      length-append got t.moved,
      length-take (suc (min n len)) (b ∷ bs),
      recv_all-done answers (suc len - length got) rest h,
    )

-- Whatever pieces the kernel cuts the two transfers into: when the sender reports success and the
-- receiver, asking for as many bytes, does too, the receiver has the sender's bytes, and what
-- follows them in the stream is still to be read.
recv_all-send_all :
    (sends reads : List (Option ℕ)) (bytes later : List ℕ)
    → (send_all sends bytes).outcome ≡ done
    → (recv_all reads (length bytes) ((send_all sends bytes).moved ++ later)).outcome ≡ done
    → ((recv_all reads (length bytes) ((send_all sends bytes).moved ++ later)).moved ≡ bytes)
      × ((recv_all reads (length bytes) ((send_all sends bytes).moved ++ later)).rest ≡ later)
recv_all-send_all sends reads bytes later sent got =
    let s = send_all sends bytes in
    let whole = send_all-whole sends bytes sent in
    let r = recv_all reads (length bytes) (s.moved ++ later) in
    append-front r.moved r.rest bytes later
      (recv_all-parts reads (length bytes) (s.moved ++ later)
        ∙ ap (λ (x : List ℕ). x ++ later) whole)
      (recv_all-done reads (length bytes) (s.moved ++ later) got)

-- Every answer of the kernel counts down: as many positive answers as there are bytes end the
-- sending loop with success.
abbrev pub AllPositive : List (Option ℕ) → Type 0
AllPositive [] = Unit
AllPositive (none ∷ answers) = ⊥
AllPositive (some n ∷ answers) = AllPositive answers

pub send_all-terminates :
    (answers : List (Option ℕ)) (bytes : List ℕ)
    → AllPositive answers
    → length bytes ≤ length answers
    → (send_all answers bytes).outcome ≡ done
unfolding send_all
send_all-terminates answers [] h enough = refl
send_all-terminates [] (b ∷ bs) h enough = absurd (omega arith)
send_all-terminates (none ∷ answers) (b ∷ bs) h enough = absurd h
send_all-terminates (some n ∷ answers) (b ∷ bs) h enough =
    send_all-terminates answers (drop n bs) h (omega (arith, length-drop n bs))

pub recv_all-terminates :
    (answers : List (Option ℕ)) (len : ℕ) (stream : List ℕ)
    → AllPositive answers
    → len ≤ length answers
    → len ≤ length stream
    → (recv_all answers len stream).outcome ≡ done
unfolding recv_all
recv_all-terminates answers zero stream h enough there = refl
recv_all-terminates [] (suc len) stream h enough there = absurd (omega arith)
recv_all-terminates (none ∷ answers) (suc len) stream h enough there = absurd h
recv_all-terminates (some n ∷ answers) (suc len) [] h enough there = absurd (omega arith)
recv_all-terminates (some n ∷ answers) (suc len) (b ∷ bs) h enough there =
    let got = take (suc (min n len)) (b ∷ bs) in
    recv_all-terminates answers (suc len - length got) (drop (suc (min n len)) (b ∷ bs)) h
      (omega (arith, length-take (suc (min n len)) (b ∷ bs)))
      (omega
        (arith, length-take (suc (min n len)) (b ∷ bs), length-drop (suc (min n len)) (b ∷ bs)))

-- The kernel answers each call with some bytes: the receiver has what it asked for in front of the
-- stream.
pub recv_all-front :
    (answers : List (Option ℕ)) (bytes later : List ℕ) (len : ℕ)
    → len ≡ length bytes
    → AllPositive answers
    → len ≤ length answers
    → recv_all answers len (bytes ++ later) ≡ record { outcome = done; moved = bytes; rest = later }
recv_all-front answers bytes later len same positive enough =
    let stream = bytes ++ later in
    let r = recv_all answers len stream in
    let over : r.outcome ≡ done =
      recv_all-terminates answers len stream positive enough
        (omega (arith, length-append bytes later)) in
    let parts =
      append-front r.moved r.rest bytes later (recv_all-parts answers len stream)
        (recv_all-done answers len stream over ∙ same) in
    λ i. record { outcome = over i; moved = parts.0 i; rest = parts.1 i }

-- A message of which every `write` takes some bytes is on the wire whole, in front of the others.
pub transmit-whole :
    (answers : List (Option ℕ)) (bytes : List ℕ) (sends : List Send)
    → AllPositive answers
    → length bytes ≤ length answers
    → transmit ((answers, bytes) ∷ sends) ≡ bytes ++ transmit sends
unfolding transmit
transmit-whole answers bytes sends positive enough =
    let over = send_all-terminates answers bytes positive enough in
    let t = send_all answers bytes in
    ap (λ o. t.moved ++ behind o (transmit sends)) over
    ∙ ap (λ (x : List ℕ). x ++ transmit sends) (send_all-whole answers bytes over)

-- The front of a message that fails is on the wire, and the next message behind it.
pub transmit-torn :
    (answers : List (Option ℕ)) (front back : List ℕ) (sends : List Send)
    → (send_all answers (front ++ back)).outcome ≡ failed
    → length (send_all answers (front ++ back)).moved ≡ length front
    → transmit ((answers, front ++ back) ∷ sends) ≡ front ++ transmit sends
unfolding transmit
transmit-torn answers front back sends over cut =
    let t = send_all answers (front ++ back) in
    let parts =
      append-front t.moved t.rest front back (send_all-parts answers (front ++ back)) cut in
    ap (λ o. t.moved ++ behind o (transmit sends)) over
    ∙ ap (λ (x : List ℕ). x ++ transmit sends) parts.0
