-- ===== src/Maturity.antt =====
-- arcanium/api/src/maturity: controls.js and scorer.js. The assessors of the controls read evidence;
-- the roll-up, the gated level, the coverage and the confidence are computed from what they say.
pub mod Controls
pub mod Levels
pub mod Rounding
