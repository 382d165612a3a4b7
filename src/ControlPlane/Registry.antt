-- ===== src/ControlPlane/Registry.antt =====
-- apps/api/src/phulax_api/routers: organizations, users, agents, tools and sessions. What pydantic
-- checks of a body (lengths, the form of an e-mail address) comes before these functions.
pub mod Orgs
pub mod Agents
pub mod Tools
pub mod Sessions
