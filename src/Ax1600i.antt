-- ===== src/Ax1600i.antt =====
-- src/psu/corsair_ax1600i: the Corsair AX1600i backend.
pub mod Protocol
pub mod Exchange
pub mod Backend
