-- ===== src/Ax1600i/Exchange/Arrival.antt =====
-- A reply that arrives in several transfers, as src/psu/corsair_ax1600i/backend.cpp collects it.
use psu_usb_to_pmbus.Ax1600i.Exchange.Pieces.{Holds, collected_lem, completed_lem}
use psu_usb_to_pmbus.Ax1600i.Protocol.Encode.{frame}
use psu_usb_to_pmbus.Base.{
  refl, [], ◌∷◌, arith, List, ℕ, ◌≡◌, ◌++◌, ◌<◌, All, length, ap, ◌≤◌, ◌∙◌, sym, append_assoc, ◌^◌,
  length-append,
}
use psu_usb_to_pmbus.Ax1600i.Exchange.{Exchange, collect_reply, ExchangeState, reply}
use psu_usb_to_pmbus.Ax1600i.Exchange.Invariant.{IsSized}

-- The pieces one after another, as one list and as the transfers that bring them.
abbrev pub join : List (List ℕ) → List ℕ
join [] = []
join (piece ∷ pieces) = piece ++ join pieces

abbrev pub collect_pieces : List (List ℕ) → Exchange → Exchange
collect_pieces [] x = x
collect_pieces (piece ∷ pieces) x = collect_pieces pieces (collect_reply (length piece) piece x)

-- After each of the pieces the exchange goes on to read.
abbrev pub Reads : List (List ℕ) → Exchange → Type 0
Reads [] x = Unit
Reads (piece ∷ pieces) x =
    let y = collect_reply (length piece) piece x in
    (y.state ≡ ExchangeState.start_read) × Reads pieces y

abbrev pub Arrives : List ℕ → List (List ℕ) → List ℕ → Exchange → Type 0
Arrives vs pieces last x =
    let y = collect_reply (length last) last (collect_pieces pieces x) in
    Reads pieces x × (y.state ≡ ExchangeState.complete) × (reply y ≡ vs ++ 0 ∷ [])

collect_pieces_lem :
    (vs got : List ℕ) (pieces : List (List ℕ)) (last : List ℕ) {x : Exchange}
    → Holds got x
    → got ++ (join pieces ++ last) ≡ frame 7 vs
    → All (λ v. v < 2 ^ 8) vs
    → length vs ≤ 63
    → All (λ (piece : List ℕ). 0 < length piece) pieces
    → 0 < length last
    → Arrives vs pieces last x
collect_pieces_lem vs got [] last h e all small some full =
    let (done, replied) = completed_lem vs got last h e all small full in (tt, done, replied)
collect_pieces_lem vs got (piece ∷ pieces) last {x} h e all small some full =
    let rest = join pieces ++ last in
    let split : (got ++ piece) ++ rest ≡ frame 7 vs =
      append_assoc got piece rest
      ∙ ap (λ (o : List ℕ). got ++ o) (sym (append_assoc piece (join pieces) last))
      ∙ e in
    let more : 0 < length rest = omega (arith, length-append (join pieces) last, full) in
    let (reading, holds) = collected_lem vs got piece rest h split small some.0 more in
    let (reads, done, replied) =
      collect_pieces_lem vs (got ++ piece) pieces last holds split all small some.1 full in
    ((reading, reads), done, replied)

-- A reply of at most 63 bytes whose frame arrives in any number of transfers of at least one byte
-- each, into the buffers of an exchange that has received nothing yet, is read on after each but
-- the last, is complete with the last, and is the reply with a zero behind it.
pub collect_pieces-Arrives :
    (vs : List ℕ) (pieces : List (List ℕ)) (last : List ℕ) {x : Exchange}
    → IsSized x
    → x.encoded_rx_size ≡ 0
    → join pieces ++ last ≡ frame 7 vs
    → All (λ v. v < 2 ^ 8) vs
    → length vs ≤ 63
    → All (λ (piece : List ℕ). 0 < length piece) pieces
    → 0 < length last
    → Arrives vs pieces last x
collect_pieces-Arrives vs pieces last h none e all small some full =
    collect_pieces_lem vs [] pieces last record { sized = h; size = none; bytes = refl } e all small
      some full
