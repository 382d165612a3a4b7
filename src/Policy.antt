-- ===== src/Policy.antt =====
-- packages/policy: the rule schema, its parser, the evaluation and the risk score.
pub mod Rules
pub mod Schema
pub mod Engine
pub mod Risk
