-- ===== src/Lib.antt =====
-- psu-usb-to-pmbus.
--
-- The firmware bridges a Corsair AX1600i power supply, which speaks a symbol code over USB, to a
-- PMBus target on I2C. This library models its parts and states what makes them correct.
--
-- Base (Tests, Lists, Bits, Ascii, Int) holds what the parts share: tests on numbers, buffers as
-- lists, bitwise facts, texts, signed integers.
--
-- Float models the `float` of the code and what it uses of <cmath>: a finite value is a sign and
-- a whole number of units of 2^-149; sums and products are rounded to nearest, ties to even.
-- What `lround` returns out of the range of a 32-bit `long` is unspecified by the C library, and
-- is the parameter `Libm`.
--
-- Telemetry.Snapshot is include/psu_usb_to_pmbus/telemetry/snapshot.hpp, the record that the USB
-- side fills and the PMBus side reports. Telemetry.Power is src/telemetry/power.cpp, with Energy
-- on its energy counters and Output on the output power. Telemetry.Store is
-- src/telemetry/store.cpp: a system of the store, the writer's and a reader's place in the code,
-- and the counts of the other readers, with one function per step; the order of memory is
-- sequential consistency, which is stronger than the acquire and release operations of the code.
-- Store.Untorn is on what a read returns.
--
-- Pmbus.Commands is include/psu_usb_to_pmbus/pmbus/commands.hpp; a byte that is no command is
-- `other` with its value. Pmbus.Linear is src/pmbus/linear.cpp, with Voltage on the word of
-- READ_VOUT, Exponent on products by powers of two and Words on LINEAR11; Pmbus.Pec is
-- src/pmbus/pec.cpp.
--
-- Pmbus.Server is src/pmbus/server.cpp: the state of `PmbusServer` and its helpers. Its child
-- OnPage is `read_on_page`, Read is `read`, Write is `write` and `write_payload_is_well_formed`.
-- The others hold theorems: Invariant and History on what every call keeps, Bounds on the reply
-- buffer, Nested on PAGE_PLUS_READ, Query on QUERY, Energy on READ_EIN, Faults on the
-- communication fault, Stale on old telemetry, Masks on SMBALERT_MASK. The snapshot that `read`
-- takes from the store is an argument. A write at a computed index behind the end of a reply,
-- which is undefined in the code, leaves a longer list (`put_at`), so that the length tells of
-- it.
--
-- Ax1600i.Protocol is src/psu/corsair_ax1600i/protocol.cpp. An output span is a list that comes
-- back changed. Encode is on requests, RoundTrip on replies.
--
-- UsbTransport is include/psu_usb_to_pmbus/platform/usb_transport.hpp: the operations that the
-- backend has of a USB transport, on a state of the transport's own, and the contract of these
-- operations. What an asynchronous read puts into its span is `read_data`, which the backend
-- takes when the transfer is complete.
--
-- Ax1600i.Exchange is the part of src/psu/corsair_ax1600i/backend.cpp that sends one request and
-- collects its reply, with the members of `Backend` that only it uses as a record; Invariant is
-- on its buffers, Pieces and Arrival on replies that arrive in several transfers.
-- Ax1600i.Backend is the rest of the class: its state, publication and recovery. Its children
-- Registers (`start_read_register`, `start_write_register`, `service_operation`), Read
-- (`complete_read`), Schedule (`schedule_next`) and Task (`task`) are its operations; the
-- branches of the long functions are functions of their own, in the order of the source. The
-- store is the list of what was published, the newest first. Times are plain numbers: a 64-bit
-- count of milliseconds does not come near its end. Bounds, Invariant and History are on the
-- state after any calls, Progress on the time that an operation takes, Program on the walk
-- through the registers, Shown on what the store shows of the link.
--
-- Rp2040.I2cTarget is src/platform/rp2040/i2c_target.cpp. An interrupt and a critical section of
-- the main loop are one step each; `plan` is what the main loop decides with interrupts enabled,
-- and `carry_out` what it does with them disabled, so that events may come between the two. The
-- peripheral is what the events report. Invariant and Interleavings are on its buffers,
-- Transactions, Writes and Reads on whole writes and reads; the bytes of a write may come in any
-- number of interrupts.
--
-- Rp2040.UsbHostTransport is src/platform/rp2040/usb_transport.cpp: the class driver and the one
-- transport object. The USB host stack is the parameter `UsbHost`, whose calls change a state of
-- its own; it calls back between the calls of the client, never within one. Open is
-- `driver_open` on the bytes of the descriptors, whose loop has the length of the descriptors
-- and one as fuel: each round consumes a byte at least. Transfers are the transfers, and fill
-- the interface UsbTransport. Accepted and Contract hold theorems.
--
-- Firmware is the loop of `usb_core` in src/main.cpp: the backend on that transport, with what
-- the USB host stack does in a round as a list of events. Firmware.Reading follows a measurement
-- from the reply of the supply to the answer on the bus. Firmware.Cores is both cores of the
-- firmware, with the I2C interrupts between them and one step for each half of a round of
-- `main`.
--
-- TestHost is tools/PMBusTestHost/PMBusTestHost.ino, a program of its own: a bridge from lines
-- on a serial port to an I2C bus, by which tests drive the firmware. The globals of the sketch
-- are a record, with what an array holds before it is written (`scratch`) and the text printed
-- so far. The bus is the parameter `Wire`, with a state of its own and one law, that a read
-- takes one of the bytes available. Text is what the sketch uses of the C library, on lists of
-- bytes; `size_t` and `unsigned long` have 32 bits, as on the SAM and SAMD boards. Request,
-- Transaction and Line are the functions of the sketch. The others hold theorems: Words,
-- RoundTrip and Requests on requests as the host programs write them, Answers on what a read
-- shows, Replies, Answered, Received and Sound on one reply for each line, OverLong on a line
-- that does not fit.
--
-- UsbDescriptors is the callback for strings of src/platform/rp2040/usb_descriptors.c, on its
-- static buffer.
--
-- Loops are structural recursion on lists or on the number of rounds left, and the call of
-- `write` in itself for PAGE_PLUS_WRITE is on a shorter payload. Other fuel is in Float, where
-- the binary digits of a number are counted with the number itself as fuel, which is never less
-- than their count, in the decimal digits of TestHost.Text likewise, and in the loop of TestHost
-- over the bytes available on the bus, which has their number as fuel: each round takes one.
--
-- Not modelled: the tables of callbacks of usb_transport.cpp and the functions that only forward
-- to the one transport object; the rest of src/main.cpp, which is start-up and printing; the
-- device and configuration descriptors of usb_descriptors.c, which are tables; the TinyUSB and
-- Pico SDK calls, which are not in the repository; the host programs under tools/pmbus_test,
-- which are in Python.
--
-- Examples applies the theorems to concrete states.
pub mod Base
pub mod Float
pub mod Pmbus
pub mod Telemetry
pub mod UsbTransport
pub mod Firmware
pub mod TestHost
pub mod UsbDescriptors
pub mod Ax1600i
pub mod Rp2040
pub mod Examples
