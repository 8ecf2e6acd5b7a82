-- ===== src/Choice.antt =====
-- internal/conjecture/choice.py: choices, their constraints, and the order of the choices.
pub mod Zigzag
pub mod Integer
pub mod Collection
pub mod Kinds
pub mod Examples
