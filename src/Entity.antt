-- ===== src/Entity.antt =====
-- The tables of src/entity that the sports betting handlers read and write. A column that no
-- handler branches on or computes with stands in an `info` record. Amounts, odds and factors are
-- of a type `N`; times are seconds; the text that `dayjs().format` gives is a String.
pub mod Bet
pub mod Slip
pub mod Records
pub mod Games
