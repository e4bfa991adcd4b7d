-- ===== src/Path2Regex.antt =====
-- web/restinio/restinio/path2regex/path2regex.hpp: a route such as `/game/:id` becomes a regular
-- expression and a list of what to do with its captures. The expression is the text that the source
-- hands to the regex engine.
pub mod Escape
pub mod Options
pub mod Token
pub mod Scan
pub mod Parse
pub mod Compile
pub mod Literal
