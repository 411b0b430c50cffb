-- ===== src/Text.antt =====
-- `str` and the functions on it that the services call (std). A text is its list of code points;
-- `bytes` is its UTF-8 encoding, and `len` counts bytes. The order of texts by bytes is that of
-- their code points.
mod Ascii
mod Laws
unfoldable pub use Ascii.*
pub use Laws.*
