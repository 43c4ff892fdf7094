-- ===== src/Json.antt =====
-- Values of type `unknown` and the JavaScript engine: the definitions, the case mappings, the laws
-- of property access, values that hide what is sensitive, and an engine for tests.
pub mod Defs
pub mod Numbers
pub mod Case
pub mod Laws
pub mod Clean
pub mod Examples
