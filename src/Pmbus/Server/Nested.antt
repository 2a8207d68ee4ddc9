-- ===== src/Pmbus/Server/Nested.antt =====
-- PAGE_PLUS_READ of src/pmbus/server.cpp against an ordinary read of the selected page.
-- What the controller receives: the bytes of the reply that are sent.
use psu_usb_to_pmbus.Pmbus.Server.Write.{write, write_local, write_page}
use psu_usb_to_pmbus.Pmbus.Commands.{Command, is_valid_page, code, of_byte}
use psu_usb_to_pmbus.Telemetry.Snapshot.{TelemetrySnapshot}
use psu_usb_to_pmbus.Float.{Libm}
use psu_usb_to_pmbus.Pmbus.Server.OnPage.{response_of, read_on_page, after_read, Reply}
use psu_usb_to_pmbus.Pmbus.Server.Bounds.{Fits, on_page-Fits}
use psu_usb_to_pmbus.Pmbus.Server.{put_at_lem, ReadResult, PmbusServer}
use psu_usb_to_pmbus.Pmbus.Server.Read.{
  nest, shift_up, read, read_page_plus, is_stale, nested_reply,
}
use psu_usb_to_pmbus.Base.{
  Bool, List, Option, [], add-one, ap, arith, drop, drop-set_self, get_or, if◌then◌else◌, length,
  length-set, length-take, none, refl, set, some, suc, take, take-set_le, take-take-append,
  take_snoc, true, zero, ℕ, ◌%◌, ◌++◌, ◌<◌, ◌^◌, ◌∙◌, ◌∷◌, ◌≡◌, ◌≤◌, ◌≢◌, sym,
}

abbrev pub sent : ReadResult → Option (List ℕ)
sent r = if r.supported then some (take r.size r.bytes) else none

-- A block: the count of its bytes, then the bytes.
abbrev pub block : Option (List ℕ) → Option (List ℕ)
block none = none
block (some bytes) = some (length bytes ∷ bytes)

shift_up_lem :
    (n x : ℕ) (xs : List ℕ)
    → n ≤ length xs
    → shift_up n (x ∷ xs) ≡ x ∷ (take n (x ∷ xs) ++ drop n xs)
unfolding shift_up
shift_up_lem zero x xs h = refl
shift_up_lem (suc n) x xs h =
    let w = get_or (x ∷ xs) n 0 in
    let moved = set xs n w in
    ap (shift_up n) (put_at_lem (x ∷ xs) (suc n) w (omega (arith, h)))
    ∙ shift_up_lem n x moved (omega (arith, length-set xs n w))
    ∙ ap (◌∷◌ x) (
        rw (take-set_le n (suc n) (x ∷ xs) w (omega arith), drop-set_self n xs w (omega arith))
          (take_snoc n (x ∷ xs) (drop (suc n) xs) 0 (omega arith)))

shifted :
    (n v : ℕ) (bytes : List ℕ)
    → n < length bytes
    → take (suc n) (set (shift_up n bytes) 0 v) ≡ v ∷ take n bytes
shifted n v [] h = absurd (omega arith)
shifted n v (x ∷ xs) h =
    rw (shift_up_lem n x xs (omega arith))
      (ap (◌∷◌ v) (take-take-append n (x ∷ xs) (drop n xs) (omega arith)))

-- A nested reply carries the bytes of the reply that it wraps.
sent-nest : (r : ReadResult) → r.supported ≡ true → Fits 33 r → sent (nest r) ≡ block (sent r)
unfolding nest
sent-nest r h f =
    let count : r.size % 2 ^ 8 ≡ length (take r.size r.bytes) =
      omega (arith, length-take r.size r.bytes, f.whole, f.bounded) in
    rw (h, add-one)
      (ap some (
        shifted r.size (r.size % 2 ^ 8) r.bytes (omega (arith, f.whole, f.bounded))
        ∙ ap (λ (k : ℕ). k ∷ take r.size r.bytes) count))

-- Selecting the page first changes the value of no ordinary read of that page.
response_of_selected :
    ⦃libm : Libm⦄ (t : TelemetrySnapshot) (stale : Bool) (s : PmbusServer) (p : ℕ) (c : Command)
    → response_of t stale (record s { page = p }) p c ≡ response_of t stale s p c
unfolding response_of
response_of_selected t stale s p c = ground arith

module _ ⦃libm : Libm⦄ (t : TelemetrySnapshot) (now_ms : ℕ) (s : PmbusServer) where
  pub read-plain :
      (c : ℕ)
      → c ≢ code Command.query
      → c ≢ code Command.page_plus_read
      → read t now_ms s c [] ≡ read_on_page s s.page c t (is_stale t now_ms)
  unfolding read
  read-plain c a b = ground arith

  write_page-valid :
      (p : ℕ)
      → is_valid_page p ≡ true
      → (write s (code Command.page) (p ∷ [])).server ≡ record s { page = p }
  unfolding write write_local write_page of_byte is_valid_page
  write_page-valid p h = ground arith

  read_page_plus_valid :
      (p c : ℕ)
      → is_valid_page p ≡ true
      → let nested = read_on_page s p c t (is_stale t now_ms) in
        read_page_plus t now_ms s (2 ∷ p ∷ c ∷ []) ≡ nested_reply nested
  unfolding read_page_plus
  read_page_plus_valid p c h = rw h

  read-page_plus :
      (request : List ℕ)
      → read t now_ms s (code Command.page_plus_read) request ≡ read_page_plus t now_ms s request
  unfolding read
  read-page_plus request = refl

framed : (n : Reply) → Fits 33 n.response → sent (nested_reply n).response ≡ block (sent n.response)
unfolding nested_reply
framed n f = ground (arith, sent-nest n.response)

nested_reply-server : (n : Reply) → (nested_reply n).server ≡ n.server
unfolding nested_reply
nested_reply-server n = ground arith

after_read_selected :
    (c : Command) (s : PmbusServer) (p : ℕ)
    → after_read c s ≡ record (after_read c (record s { page = p })) { page = s.page }
unfolding after_read
after_read_selected c s p = ground arith

module _ ⦃libm : Libm⦄ (t : TelemetrySnapshot) (stale : Bool) (s : PmbusServer) (p c : ℕ) where
  selected_response :
      (read_on_page s p c t stale).response
      ≡ (read_on_page (record s { page = p }) p c t stale).response
  unfolding read_on_page
  selected_response = sym (response_of_selected t stale s p (of_byte c))

  selected_server :
      (read_on_page s p c t stale).server
      ≡ record ((read_on_page (record s { page = p }) p c t stale).server) { page = s.page }
  unfolding read_on_page
  selected_server = after_read_selected (of_byte c) s p

-- What PAGE_PLUS_READ of a documented page and a command sends is the block of what an ordinary read of that
-- command sends once the page has been selected by a write of PAGE, and is silent where that read
-- is; the selected page of the target stays as it was. The command is not itself a process call.
pub read_page_plus_frames :
    ⦃libm : Libm⦄ (t : TelemetrySnapshot) (now_ms : ℕ) (s : PmbusServer) (p c : ℕ)
    → is_valid_page p ≡ true
    → c ≢ code Command.query
    → c ≢ code Command.page_plus_read
    → let selected = (write s (code Command.page) (p ∷ [])).server in
      let direct = read t now_ms selected c [] in
      let nested = read t now_ms s (code Command.page_plus_read) (2 ∷ p ∷ c ∷ []) in
      (sent nested.response ≡ block (sent direct.response))
      × (nested.server ≡ record (direct.server) { page = s.page })
read_page_plus_frames t now_ms s p c h a b =
    rw
      (
        write_page-valid t now_ms s p h,
        read-plain t now_ms (record s { page = p }) c a b,
        read-page_plus t now_ms s (2 ∷ p ∷ c ∷ []),
        read_page_plus_valid t now_ms s p c h,
      )
      (
        framed (read_on_page s p c t (is_stale t now_ms))
              (on_page-Fits t now_ms s p c (is_stale t now_ms))
            ∙ ap (λ (r : ReadResult). block (sent r))
                (selected_response t (is_stale t now_ms) s p c),
        nested_reply-server _ ∙ selected_server t (is_stale t now_ms) s p c,
      )
