-- ===== src/Interpolation.antt =====
-- crates/susun-loader/src/interpolation: the tokens of a scalar and their evaluation.
pub mod Tokens
pub mod Coverage
pub mod Eval
pub mod Escaping
pub mod Outcome
pub mod Written
mod Examples
