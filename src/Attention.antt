-- ===== src/Attention.antt =====
-- What a firm should look at: the state of its records (health.py), and its open work in order
-- (priority.py).
pub mod Health
pub mod Priority
