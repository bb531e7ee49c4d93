-- ===== src/Database.antt =====
-- The store that all services share: the rows of the tables, the errors, the stock balances and
-- the transactions (the `models.py` files of `app/modules/` and the use of `engine.begin()`).
mod Rows
mod Errors
mod Transaction
mod Stock
mod Texts
mod External
pub mod Laws
pub mod Pages
pub use Rows.*
pub use Errors.*
unfoldable pub use Stock.*
unfoldable pub use Texts.*
unfoldable pub use Transaction.*
pub use External.*
