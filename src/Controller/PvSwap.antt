-- ===== src/Controller/PvSwap.antt =====
-- src/controller/pv_swap.rs: the commit point and the swap of the PV.
mod Render
mod Swap
unfoldable pub use Render.*
unfoldable pub use Swap.*
