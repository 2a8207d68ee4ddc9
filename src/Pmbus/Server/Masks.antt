-- ===== src/Pmbus/Server/Masks.antt =====
-- SMBALERT_MASK of src/pmbus/server.cpp: writes and reads of the six alert masks.
use psu_usb_to_pmbus.Pmbus.Server.OnPage.{Reply}
use psu_usb_to_pmbus.Pmbus.Commands.{of_byte, code, Command}
use psu_usb_to_pmbus.Pmbus.Server.Read.{read, read_mask, counted_byte}
use psu_usb_to_pmbus.Telemetry.Snapshot.{TelemetrySnapshot}
use psu_usb_to_pmbus.Pmbus.Server.Write.{write, write_local, write_mask, accept, reject}
use psu_usb_to_pmbus.Float.{Libm}
use psu_usb_to_pmbus.Pmbus.Server.{
  PmbusServer, find_index, smalert_mask_index, smalert_status_commands,
}
use psu_usb_to_pmbus.Base.{
  List, [], ap, arith, get_or, get_or-set_ne, get_or-set_self, length, length-set, refl, set, sym,
  ℕ, ◌<◌, ◌∙◌, ◌∷◌, ◌≡◌, ◌≢◌, ◌≤◌,
}

find_index_lt :
    (xs : List ℕ) (a : ℕ) → find_index xs a < length xs → get_or xs (find_index xs a) 0 ≡ a
find_index_lt [] a h = absurd (omega arith)
find_index_lt (x ∷ xs) a h = ground (arith, find_index_lt xs a)

module _ (s : PmbusServer) (status m : ℕ) where
  -- A write of a mask is accepted exactly for the six status commands that have one.
  write_mask-accepted :
      smalert_mask_index status < length s.smalert_masks
      → write s (code Command.smalert_mask) (status ∷ m ∷ [])
        ≡ accept (record s { smalert_masks = set s.smalert_masks (smalert_mask_index status) m })
  unfolding write write_local write_mask of_byte
  write_mask-accepted h = ground arith

  write_mask-refused :
      length s.smalert_masks ≤ smalert_mask_index status
      → write s (code Command.smalert_mask) (status ∷ m ∷ []) ≡ reject s
  unfolding write write_local write_mask of_byte
  write_mask-refused h = ground arith

module _ ⦃libm : Libm⦄ (t : TelemetrySnapshot) (now_ms : ℕ) (s : PmbusServer) where
  read_mask-answered :
      (status : ℕ)
      → smalert_mask_index status < length s.smalert_masks
      → read t now_ms s (code Command.smalert_mask) (1 ∷ status ∷ []) ≡ record {
        server = s;
        response = counted_byte (get_or s.smalert_masks (smalert_mask_index status) 0);
      }
  unfolding read read_mask
  read_mask-answered status h = ground arith

-- A status command has a mask exactly if it is on the list, and two of them have different masks.
mask_index-injective :
    (a b : ℕ) → smalert_mask_index a < 6 → a ≢ b → smalert_mask_index a ≢ smalert_mask_index b
mask_index-injective a b h ne e = ne (
    sym (find_index_lt smalert_status_commands a h)
    ∙ ap (λ (i : ℕ). get_or smalert_status_commands i 0) e
    ∙ find_index_lt smalert_status_commands b (rw (← e) h))

-- In a target with its six masks, the mask that a write sets for a status command that has one is the
-- mask that a process call reads back, that of any other status command reads as before, and nothing else of the target changes.
pub mask_round_trip :
    ⦃libm : Libm⦄ (t : TelemetrySnapshot) (now_ms : ℕ) (s : PmbusServer) (status other m : ℕ)
    → length s.smalert_masks ≡ 6
    → smalert_mask_index status < 6
    → smalert_mask_index other < 6
    → status ≢ other
    → let w = write s (code Command.smalert_mask) (status ∷ m ∷ []) in
      let masks = set s.smalert_masks (smalert_mask_index status) m in
      (w ≡ accept (record s { smalert_masks = masks }))
      × (read t now_ms w.server (code Command.smalert_mask) (1 ∷ status ∷ [])
          ≡ record { server = w.server; response = counted_byte m })
      × ((read t now_ms w.server (code Command.smalert_mask) (1 ∷ other ∷ [])).response
          ≡ (read t now_ms s (code Command.smalert_mask) (1 ∷ other ∷ [])).response)
mask_round_trip t now_ms s status other m six known known' ne =
    let i = smalert_mask_index status in
    let j = smalert_mask_index other in
    let masks = set s.smalert_masks i m in
    let s' : PmbusServer = record s { smalert_masks = masks } in
    let six' : length masks ≡ 6 = length-set s.smalert_masks i m ∙ six in
    let w = write_mask-accepted s status m (rw six known) in
    rw w (
      refl,
      read_mask-answered t now_ms s' status (rw six' known)
          ∙ ap (λ (v : ℕ). record { server = s'; response = counted_byte v })
              (get_or-set_self s.smalert_masks i m 0 (rw six known)),
      ap (λ (r : Reply). r.response) (read_mask-answered t now_ms s' other (rw six' known'))
          ∙ ap counted_byte
              (get_or-set_ne s.smalert_masks i j m 0 (mask_index-injective status other known ne))
          ∙ sym (
              ap (λ (r : Reply). r.response) (read_mask-answered t now_ms s other (rw six known'))),
    )
