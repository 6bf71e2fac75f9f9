-- ===== src/Json.antt =====
-- Python's `json` module as the scripts use it: `json.dumps(v, indent=2)` and `json.loads(s)`.
pub mod Write
pub mod Read
pub mod Texts
pub mod Numbers
pub mod Steps
pub mod Pieces
pub mod RoundTrip
pub mod Readable
