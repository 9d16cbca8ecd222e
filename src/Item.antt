-- ===== src/Item.antt =====
-- The items of a player: src/service/logic/module/item and the item helpers of src/configdoc.
pub mod Pack
pub mod Merge
pub mod Module
pub mod Counts
pub mod Totals
pub mod Distinct
pub mod Consume
pub mod Gain
mod ItemTests
