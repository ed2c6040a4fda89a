-- ===== src/Cursor/Consumes.antt =====
-- What a parser does on any bytes: the bytes that it takes and its result are related, the cursor
-- stands right behind them, and all it may raise is a ParseError.
mod Rules
mod Readers
unfoldable pub use Rules.*
unfoldable pub use Readers.*
