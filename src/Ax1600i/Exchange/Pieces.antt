-- ===== src/Ax1600i/Exchange/Pieces.antt =====
-- One transfer of a reply that arrives in several, as src/psu/corsair_ax1600i/backend.cpp collects it.
use psu_usb_to_pmbus.Ax1600i.Protocol.{Decoded, decode}
use psu_usb_to_pmbus.Ax1600i.Protocol.RoundTrip.{symbols-nonzero, last-append, decode-frame}
use psu_usb_to_pmbus.Ax1600i.Protocol.Encode.{frame, header, symbols, length-symbols, length-frame}
use psu_usb_to_pmbus.Base.{
  ==_false, zero, suc, refl, [], ◌∷◌, arith, List, ℕ, take, ◌≡◌, ◌++◌, ◌<◌, All, length, get_or,
  drop, ◌+◌, ap, suc, ◌≤◌, ◌*◌, ◌≢◌, store, length-drop, ◌∙◌, store_lem, sym, append_assoc, ◌^◌,
  false, Bool, length-append, ◌-◌, ◌==◌, true, ◌||◌, ltb, subst, take-append, take-append_suc,
}
use psu_usb_to_pmbus.Ax1600i.Exchange.{
  Exchange, collect_reply, ExchangeState, reply, with_state, outcome,
}
use psu_usb_to_pmbus.Ax1600i.Exchange.Invariant.{IsSized, collect_reply-IsSized}

-- The bytes received so far.
pub record Holds (got : List ℕ) (x : Exchange) : Type 0 where
  pub sized : IsSized x
  pub size : x.encoded_rx_size ≡ length got
  pub bytes : x.encoded_rx ≡ got ++ drop (length got) x.encoded_rx

get_or-prefix : (xs ys : List ℕ) (k : ℕ) → k < length xs → get_or (xs ++ ys) k 0 ≡ get_or xs k 0
get_or-prefix [] ys k h = absurd (omega arith)
get_or-prefix (x ∷ xs) ys zero h = refl
get_or-prefix (x ∷ xs) ys (suc k) h = get_or-prefix xs ys k (omega arith)

get_or-All : (P : ℕ → Type 0) (xs : List ℕ) (k : ℕ) → All P xs → k < length xs → P (get_or xs k 0)
get_or-All P [] k all h = absurd (omega arith)
get_or-All P (x ∷ xs) zero all h = all.0
get_or-All P (x ∷ xs) (suc k) all h = get_or-All P xs k all.1 (omega arith)

take-length : (xs : List ℕ) → take (length xs) xs ≡ xs
take-length [] = refl
take-length (x ∷ xs) = ap (◌∷◌ x) (take-length xs)

-- The bytes of a transfer, put behind those before it.
stored_lem :
    (got piece : List ℕ) {x : Exchange}
    → Holds got x
    → length got + length piece ≤ 256
    → store x.encoded_rx_size (take (length piece) piece) x.encoded_rx
      ≡ (got ++ piece) ++ drop (length piece) (drop (length got) x.encoded_rx)
stored_lem got piece {x} h fits =
    let rest = drop (length got) x.encoded_rx in
    let room : length piece ≤ length rest =
      omega (arith, fits, h.sized.rx_whole, length-drop (length got) x.encoded_rx) in
    rw (take-length piece) (
      ap (λ (o : List ℕ). store x.encoded_rx_size piece o) (h.bytes)
      ∙ store_lem piece got rest x.encoded_rx_size (h.size) room
      ∙ sym (append_assoc got piece (drop (length piece) rest)))

-- A byte of a frame before its end is not zero.
frame-nonzero :
    (vs got rest : List ℕ) (k : ℕ)
    → got ++ rest ≡ frame 7 vs
    → k < length got
    → k < length vs * 2 + 1
    → get_or got k 0 ≢ 0
frame-nonzero vs got rest k e inside early =
    let all : All (λ x. x ≢ 0) (header 7 ∷ symbols vs) = (omega arith, symbols-nonzero vs) in
    let count : length (header 7 ∷ symbols vs) ≡ length vs * 2 + 1 =
      omega (arith, length-symbols vs) in
    let there =
      get_or-All (λ x. x ≢ 0) (header 7 ∷ symbols vs) k all (omega (arith, early, count)) in
    λ z. there (
      sym (get_or-prefix (header 7 ∷ symbols vs) (0 ∷ []) k (omega (arith, early, count)))
      ∙ ap (λ (o : List ℕ). get_or o k 0) (sym e)
      ∙ get_or-prefix got rest k inside
      ∙ z)

drop-append : (xs ys : List ℕ) → drop (length xs) (xs ++ ys) ≡ ys
drop-append [] ys = refl
drop-append (x ∷ xs) ys = drop-append xs ys

-- The buffer once a piece has been put into it, and whether it has room for the piece.
abbrev filled : List ℕ → Exchange → List ℕ
filled piece x = store x.encoded_rx_size (take (length piece) piece) x.encoded_rx

abbrev overruns : ℕ → Exchange → Bool
overruns received x = received == 0 || ltb (length x.encoded_rx - x.encoded_rx_size) received

abbrev grown : List ℕ → Exchange → Exchange
grown piece x = record x {
  encoded_rx = filled piece x;
  encoded_rx_size = x.encoded_rx_size + length piece;
}

abbrev decoded : List ℕ → Exchange → Decoded
decoded piece x = decode (take (x.encoded_rx_size + length piece) (filled piece x)) x.response

reads_on :
    (piece : List ℕ) (x : Exchange)
    → overruns (length piece) x ≡ false
    → (get_or (filled piece x) (x.encoded_rx_size + length piece - 1) 0 == 0) ≡ false
    → collect_reply (length piece) piece x ≡ with_state ExchangeState.start_read (grown piece x)
unfolding collect_reply
reads_on piece x fits more = rw (fits, more) refl

decodes :
    (piece : List ℕ) (x : Exchange)
    → overruns (length piece) x ≡ false
    → (get_or (filled piece x) (x.encoded_rx_size + length piece - 1) 0 == 0) ≡ true
    → collect_reply (length piece) piece x
      ≡ with_state (outcome (decoded piece x).error) (record (grown piece x) {
        response = (decoded piece x).output;
        response_size = (decoded piece x).size;
      })
unfolding collect_reply
decodes piece x fits ends = rw (fits, ends) refl

-- A piece before the last one.
pub collected_lem :
    (vs got piece rest : List ℕ) {x : Exchange}
    → Holds got x
    → (got ++ piece) ++ rest ≡ frame 7 vs
    → length vs ≤ 63
    → 0 < length piece
    → 0 < length rest
    → ((collect_reply (length piece) piece x).state ≡ ExchangeState.start_read)
      × Holds (got ++ piece) (collect_reply (length piece) piece x)
collected_lem vs got piece rest {x} h e small some more =
    let whole : length (got ++ piece) + length rest ≡ length vs * 2 + 2 =
      sym (length-append (got ++ piece) rest)
      ∙ ap (λ (o : List ℕ). length o) e
      ∙ length-frame 7 vs in
    let both = length-append got piece in
    let fits : overruns (length piece) x ≡ false =
      ground (arith, h.size, h.sized.rx_whole, whole, both, small, some) in
    let stored = stored_lem got piece h (omega (arith, whole, both, small)) in
    let tail = drop (length piece) (drop (length got) x.encoded_rx) in
    let k = x.encoded_rx_size + length piece - 1 in
    let inside : k < length (got ++ piece) = omega (arith, h.size, both, some) in
    let end : get_or (filled piece x) k 0 ≡ get_or (got ++ piece) k 0 =
      ap (λ (o : List ℕ). get_or o k 0) stored ∙ get_or-prefix (got ++ piece) tail k inside in
    let nonzero =
      frame-nonzero vs (got ++ piece) rest k e inside (omega (arith, inside, whole, more)) in
    let next =
      reads_on piece x fits
        (==_false (get_or (filled piece x) k 0) 0 (λ z. nonzero (sym end ∙ z))) in
    let behind : drop (length (got ++ piece)) (filled piece x) ≡ tail =
      ap (λ (o : List ℕ). drop (length (got ++ piece)) o) stored
      ∙ drop-append (got ++ piece) tail in
    let sized = collect_reply-IsSized (length piece) piece h.sized in
    rw next (
      refl,
      record {
        sized = subst IsSized next sized;
        size = omega (arith, h.size, both);
        bytes = stored ∙ ap (λ (o : List ℕ). (got ++ piece) ++ o) (sym behind);
      },
    )

-- The last piece.
pub completed_lem :
    (vs got piece : List ℕ) {x : Exchange}
    → Holds got x
    → got ++ piece ≡ frame 7 vs
    → All (λ v. v < 2 ^ 8) vs
    → length vs ≤ 63
    → 0 < length piece
    → ((collect_reply (length piece) piece x).state ≡ ExchangeState.complete)
      × (reply (collect_reply (length piece) piece x) ≡ vs ++ 0 ∷ [])
completed_lem vs got piece {x} h e all small some =
    let n = x.encoded_rx_size + length piece in
    let both = length-append got piece in
    let whole : length (got ++ piece) ≡ length (frame 7 vs) = ap (λ (o : List ℕ). length o) e in
    let size : n ≡ length (frame 7 vs) = omega (arith, h.size, both, whole) in
    let count = length-frame 7 vs in
    let fits : overruns (length piece) x ≡ false =
      ground (arith, h.size, h.sized.rx_whole, count, size, small, some) in
    let tail = drop (length piece) (drop (length got) x.encoded_rx) in
    let stored : filled piece x ≡ frame 7 vs ++ tail =
      stored_lem got piece h (omega (arith, count, whole, both, small))
      ∙ ap (λ (o : List ℕ). o ++ tail) e in
    let end : get_or (filled piece x) (n - 1) 0 ≡ 0 =
      ap (λ (o : List ℕ). get_or o (n - 1) 0) stored
      ∙ get_or-prefix (frame 7 vs) tail (n - 1) (omega (arith, count, size))
      ∙ ap (λ (k : ℕ). get_or (frame 7 vs) (k - 1) 0) size
      ∙ last-append (header 7 ∷ symbols vs) 0 in
    let all_of : take n (filled piece x) ≡ frame 7 vs =
      ap (λ (o : List ℕ). take n o) stored
      ∙ ap (λ (k : ℕ). take k (frame 7 vs ++ tail)) size
      ∙ take-append (frame 7 vs) tail in
    let result =
      ap (λ (o : List ℕ). decode o x.response) all_of
      ∙ decode-frame vs x.response all (omega (arith, small, h.sized.response_whole)) in
    let one : length vs + 1 ≡ suc (length vs) = omega arith in
    rw (decodes piece x fits (ground (arith, end)), result)
      (
        refl,
        ap (λ (k : ℕ). take k (vs ++ 0 ∷ drop (length vs + 1) x.response)) one
            ∙ take-append_suc vs (drop (length vs + 1) x.response) 0,
      )
