-- ===== src/Sequence.antt =====
-- examples/sequence: a writer that sends sequences of growing length to a reader, behind a policy
-- that denies the long ones.
pub mod Writer
mod Tests
