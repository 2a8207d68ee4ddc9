-- ===== src/Pmbus/Server/Query.antt =====
-- QUERY of src/pmbus/server.cpp against what reads and writes of the queried command do.
use Prim.Native.Nat.{max}
use psu_usb_to_pmbus.Pmbus.Server.Write.{write_local, write, write_page, write_mask, is_page_plus}
use psu_usb_to_pmbus.Pmbus.Server.Nested.{read-plain}
use psu_usb_to_pmbus.Pmbus.Server.Invariant.{restore_lem}
use psu_usb_to_pmbus.Pmbus.Server.OnPage.{read_on_page, response_of, Reply}
use psu_usb_to_pmbus.Pmbus.Commands.{Command, of_byte, code, is_valid_page, code-of_byte}
use psu_usb_to_pmbus.Telemetry.Snapshot.{TelemetrySnapshot}
use psu_usb_to_pmbus.Float.{Libm}
use psu_usb_to_pmbus.Pmbus.Server.{
  data_format, query_data_format, query_is_special_read, PmbusServer, query_is_locally_writable,
  is_locally_writable, accepted,
}
use psu_usb_to_pmbus.Pmbus.Server.Read.{
  query_byte, read, read_query, is_stale, plain_byte, counted_byte, read_page_plus,
}
use psu_usb_to_pmbus.Base.{
  Bool, Bool-cases, List, [], ap, arith, if◌then◌else◌, inl, inr, length, refl, sym, true, ℕ, ◌%◌,
  ◌/◌, ◌<◌, ◌^◌, ◌||◌, ◌↔◌, ◌∷◌, ◌≡◌, ◌⊎◌, ℕ_discrete, ◌==◌, subst,
}

-- A test as a binary digit.
abbrev pub digit : Bool → ℕ
digit b = if b then 1 else 0

data_format_cases :
    (c : Command)
    → (data_format c ≡ 0x00)
      ⊎ (data_format c ≡ 0x0c)
      ⊎ (data_format c ≡ 0x10)
      ⊎ (data_format c ≡ 0x1c)
unfolding data_format
data_format_cases c = ground arith

-- The upper bits of the byte: known, writable, readable.
query_byte_digits :
    (c : ℕ) (supported : Bool)
    → let b = query_byte c supported in
      let readable = supported || query_is_special_read c in
      let writable = query_is_locally_writable c in
      (b / 2 ^ 7 ≡ digit (readable || writable))
      × (b / 2 ^ 6 % 2 ≡ digit writable)
      × (b / 2 ^ 5 % 2 ≡ digit readable)
unfolding query_byte query_data_format
query_byte_digits c supported = ground (arith, data_format_cases (of_byte c))

module _ ⦃libm : Libm⦄ (t : TelemetrySnapshot) (now_ms : ℕ) (s : PmbusServer) where
  special_supported :
      (c : ℕ)
      → (c ≡ code Command.query) ⊎ (c ≡ code Command.page_plus_read)
      → (read_on_page s s.page c t (is_stale t now_ms)).response.supported
        ≡ (read t now_ms s c []).response.supported
  unfolding read read_query read_page_plus read_on_page response_of of_byte
  special_supported c (inl e) = rw e refl
  special_supported c (inr e) = rw e refl

  -- The probe of QUERY and a plain read of the same command are supported alike.
  plain_supported :
      (c : ℕ)
      → (read_on_page s s.page c t (is_stale t now_ms)).response.supported
        ≡ (read t now_ms s c []).response.supported
  plain_supported c = elim (ℕ_discrete c (code Command.query)) [
    | yes e ↦ special_supported c (inl e)
    | no n ↦ elim (ℕ_discrete c (code Command.page_plus_read)) [
      | yes e ↦ special_supported c (inr e)
      | no m ↦ sym (ap (λ (r : Reply). r.response.supported) (read-plain t now_ms s c n m))
    ]
  ]

  query_answers :
      (c : ℕ)
      → let b = query_byte c (read_on_page s s.page c t (is_stale t now_ms)).response.supported in
        (read t now_ms s (code Command.query) (c ∷ [])
          ≡ record { server = s; response = plain_byte b })
        × (read t now_ms s (code Command.query) (1 ∷ c ∷ [])
            ≡ record { server = s; response = counted_byte b })
  unfolding read read_query read_on_page
  query_answers c = rw (restore_lem (of_byte c) s) (refl, refl)

-- A payload that each local write accepts.
abbrev accepted_payload : Command → List ℕ
accepted_payload Command.clear_faults = []
accepted_payload Command.page_plus_write = 2 ∷ 0 ∷ code Command.clear_faults ∷ []
accepted_payload Command.smalert_mask = code Command.status_byte ∷ 0xff ∷ []
accepted_payload Command.status_word = 0 ∷ 0 ∷ []
accepted_payload _ = 0 ∷ []

writable-accepted :
    (k : Command) (s : PmbusServer)
    → length s.smalert_masks ≡ 6
    → is_locally_writable k ≡ true
    → (write s (code k) (accepted_payload k)).result ≡ accepted
unfolding is_locally_writable write write_local write_page write_mask of_byte is_valid_page
writable-accepted Command.smalert_mask s h w = rw h refl
writable-accepted k s h w = ground arith

accepted-writable :
    (k : Command) (b : ℕ) (payload : List ℕ) (s : PmbusServer)
    → b < 0xc4
    → (write_local s b k payload).result ≡ accepted
    → is_locally_writable k ≡ true
unfolding is_locally_writable write_local
accepted-writable k b payload s small ok = ground arith

page_plus-writable : (c : ℕ) → is_page_plus c ≡ true → query_is_locally_writable c ≡ true
unfolding query_is_locally_writable is_locally_writable of_byte
page_plus-writable c e = let same : c ≡ code Command.page_plus_write = ground arith in rw same refl

write-accepted-writable :
    (c : ℕ) (payload : List ℕ) (s : PmbusServer)
    → c < 0xc4
    → (write s c payload).result ≡ accepted
    → query_is_locally_writable c ≡ true
unfolding write query_is_locally_writable
write-accepted-writable c (count ∷ p ∷ nested ∷ rest) s small ok =
    elim (Bool-cases (is_page_plus c)) [
      | inl e ↦ page_plus-writable c e
      | inr n ↦ accepted-writable (of_byte c) c _ s small (rw n at ok)
    ]
write-accepted-writable c payload s small ok = elim (Bool-cases (is_page_plus c)) [
  | inl e ↦ page_plus-writable c e
  | inr n ↦ accepted-writable (of_byte c) c payload s small (rw n at ok)
]

-- Below the manufacturer's own range, QUERY calls a command writable exactly if there is a payload
-- that a write of it accepts.
pub writable_iff :
    (s : PmbusServer) (c : ℕ)
    → length s.smalert_masks ≡ 6
    → c < 0xc4
    → (query_is_locally_writable c ≡ true)
      ↔ ((payload : List ℕ) × ((write s c payload).result ≡ accepted))
unfolding query_is_locally_writable
writable_iff s c h small = (
  (λ w.
      (accepted_payload (of_byte c), rw (code-of_byte c) at (writable-accepted (of_byte c) s h w))),
  (λ p. write-accepted-writable c p.0 s small p.1),
)

-- No command of the manufacturer's own range is on the list.
writable-below : (k : Command) → is_locally_writable k ≡ true → code k < 0xc4
unfolding is_locally_writable
writable-below k w = ground arith

query_writable-below : (c : ℕ) → query_is_locally_writable c ≡ true → c < 0xc4
unfolding query_is_locally_writable
query_writable-below c w =
    subst (λ (b : ℕ). b < 0xc4) (code-of_byte c) (writable-below (of_byte c) w)

digit_iff : (n : ℕ) (b : Bool) → n ≡ digit b → (n ≡ 1) ↔ (b ≡ true)
digit_iff n b h = ground (arith, h)

max-digit : (x y z : ℕ) (a b : Bool) → x ≡ digit (a || b) → y ≡ digit b → z ≡ digit a → x ≡ max y z
max-digit x y z a b p q r = ground (arith, p, q, r)

-- In a target with its six alert masks, QUERY of any command, in either form of its request, leaves the
-- target as it was. The byte it sends says that the command is readable exactly if a plain read of it is answered or it is QUERY or
-- PAGE_PLUS_READ; that it is writable exactly if it is below the manufacturer's own range and there is
-- a payload that a write of it accepts; and that it is known exactly if it is one of these.
pub read_query_reports :
    ⦃libm : Libm⦄ (t : TelemetrySnapshot) (now_ms : ℕ) (s : PmbusServer) (c : ℕ)
    → length s.smalert_masks ≡ 6
    → let supported = (read t now_ms s c []).response.supported in
      (b : ℕ) × (read t now_ms s (code Command.query) (c ∷ [])
        ≡ record { server = s; response = plain_byte b })
      × (read t now_ms s (code Command.query) (1 ∷ c ∷ [])
          ≡ record { server = s; response = counted_byte b })
      × (b / 2 ^ 5 % 2 ≡ digit (supported || (c == 0x1a || c == 0x06)))
      × ((b / 2 ^ 6 % 2 ≡ 1)
          ↔ ((c < 0xc4) × ((payload : List ℕ) × ((write s c payload).result ≡ accepted))))
      × (b / 2 ^ 7 ≡ max (b / 2 ^ 6 % 2) (b / 2 ^ 5 % 2))
unfolding query_is_special_read
read_query_reports t now_ms s c whole =
    let supported = (read t now_ms s c []).response.supported in
    let answer = rw (plain_supported t now_ms s c) at (query_answers t now_ms s c) in
    let (known, writable, readable) = query_byte_digits c supported in
    let b = query_byte c supported in
    let on_list = digit_iff (b / 2 ^ 6 % 2) (query_is_locally_writable c) writable in
    (
      b,
      answer.0,
      answer.1,
      readable,
      (
        (λ h. (
          query_writable-below c (on_list.0 h),
          (writable_iff s c whole (query_writable-below c (on_list.0 h))).0 (on_list.0 h),
        )),
        (λ p. on_list.1 ((writable_iff s c whole p.0).1 p.1)),
      ),
      max-digit (b / 2 ^ 7) (b / 2 ^ 6 % 2) (b / 2 ^ 5 % 2) (supported || query_is_special_read c)
          (query_is_locally_writable c) known writable readable,
    )
