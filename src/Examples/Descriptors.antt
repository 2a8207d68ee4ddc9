-- ===== src/Examples/Descriptors.antt =====
-- A string of the USB device, over the words of an earlier one.
use psu_usb_to_pmbus.Base.{codes, refl, ◌≡◌, ◌∷◌, ◌++◌, replicate, true}
use psu_usb_to_pmbus.UsbDescriptors.{tud_descriptor_string, tud_descriptor_string_lem}

tud_descriptor_string_lem_example :
    tud_descriptor_string 3 (replicate 33 7)
    ≡ record { given = true; buffer = 798 ∷ (codes "RP2040-AX1600I" ++ replicate 18 7) }
tud_descriptor_string_lem_example = tud_descriptor_string_lem 3 (replicate 33 7) refl
