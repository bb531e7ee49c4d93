-- ===== src/Lib.antt =====
-- Verification library of dpg-business-app-starter, a backend for organizations that keep stock
-- and sell it: products in warehouses, receipts, issues and transfers of stock, priced sales with
-- controlled discounts, returns and voids, to the members whom an organization invites. Every service
-- that moves stock runs in one transaction, appends
-- to the history of movements and is idempotent under a key that the client chooses.
--
-- The files and the code:
--   Database: the rows of app/modules/*/models.py (Rows), the exceptions (Errors), the table
--     stock_balances and its three statements (Stock), the widths of texts (Texts), transactions (Transaction), the parameters
--     that stand for code outside the repository (External), how a call can end (Laws), and the
--     pages in which the queries return their lists (Pages).
--   Authorization: app/core/authorization.py.
--   Inventory: app/modules/inventory. Statements holds the statements that the services share,
--     Movement is record_stock_movement, Transfer is transfer_stock, UseCases the commands of
--     use_cases.py that write, Queries those that read, with what they tell in Queries.Histories;
--     Ledger is the specification: every balance is what was received less what was issued, and
--     every movement carries the balance that it left.
--   Sales: app/modules/sales. Commands, Pricing, Approval and Checkout are the parts of create_sale
--     in service.py, Returns is process_sale_return of returns_service.py, with its command and
--     lines in Returns.Lines, UseCases the commands of use_cases.py that write, Queries those that
--     read, RoundTrip a sale together with its void.
--   Catalog: app/modules/products/use_cases.py and app/modules/warehouses/use_cases.py, the lists
--     and lookups in Products.Queries and Warehouses.Queries.
--   Accounts: users and the ways into an organization. Security is app/core/security.py,
--     Organizations, Members and Invitations are the use_cases.py files of
--     app/modules/organizations, app/modules/memberships and app/modules/invitations.
--   System: all commands together, as a relation between the databases that one call after another,
--     with others in between, leads from and to.
--   Http: the answers of app/main.py and app/core/errors.py, and the routes that
--     write of app/modules/inventory/router.py (Http.Inventory) and app/modules/sales/router.py
--     (Http.Sales), with their schemas.py.
--   Base: shared names, lists and texts. Tests: runs on a small shop.
-- The other child modules of a service hold its proofs.
--
-- How the program is modelled:
--   The database is a record of tables, newest row first. A body of a transaction is a function
--   from the database to a result: an error rolls back, which is why it carries no database.
--   run_once is the shape of the four services that move stock: the lookup of the key, the transaction,
--   and the second lookup where the unique constraint of the key is violated. The isolation is
--   that of PostgreSQL's READ COMMITTED: what other clients commit between the first lookup and the
--   first lock is a parameter, an arbitrary function on the database (Call.concurrent); from
--   the first lock on, the rows that the service reads are taken to be its own. The locks and
--   their order are not modelled, nor are deadlocks and lost connections.
--   UUIDs and times are numbers. Quantities and prices are numbers of millionths, the scale of
--   their columns; the request schemas refuse negative ones and more than six digits after the
--   point. A product of two of them is kept exact, in units of 10^-12, which the 28
--   digits of a Decimal hold wherever the column holds the amount, and Environment.stored is its
--   rounding to the column. A sum that a Numeric(20, 6) column cannot hold is an error. A discount
--   rate is compared by products, where the code divides: the quotient of 28 digits of two amounts of
--   that width compares with a policy of four digits as the exact one does.
--   Of the constraints of the tables those are modelled that the guards of a service do not
--   exclude; a primary key that is violated because a drawn UUID is not new is modelled for returns
--   alone. The widths of the columns for an idempotency key, a reason and a reference are modelled, and
--   those for the name and the email of a bootstrap (Database.Texts); a key comes in a header and has
--   no NUL character. The driver's error for a text that PostgreSQL does not take, too long or with a
--   NUL character, is text_data_error; that PostgreSQL cuts off an excess that is all spaces is left
--   out, since header values and stripped texts end in none. The other texts are taken to fit their
--   columns: the request schemas bound them, hashes are short, and a change of case is taken not to
--   lengthen them.
--   Hashing, password verification, the text of a UUID, rounding, the order and the pattern search
--   of texts, the clock and fresh UUIDs are parameters (Environment, Call), and so is the package
--   that makes and reads access tokens (Jwt), with what its documentation says as IsJwt,
--   and the pattern of a PIN in a request. A payload is
--   hashed as a value, since its JSON with sorted keys is a function of its fields. Loops run over
--   lists; only the client that follows the cursors of a list needs fuel, one request for each row
--   of the list and one more, which is shown to be enough. An inner join of a query with a row that
--   a foreign key names is the lookup of that row, and drops the item where there is none.
--   In a run of the whole program (System) the other clients of a call make a run of their own. The
--   commands on the catalog, the policy and the accounts, but for the acceptance of an invitation,
--   are one step: what others commit between their statements is not
--   modelled.
--
-- Not modelled: the routes that read, the routers and schemas of the catalog and the accounts, the
-- wiring of FastAPI, a database that cannot be reached, migrations, logging, the command line and the
-- web client.
pub mod Base
pub mod Database
pub mod Authorization
pub mod Inventory
pub mod Sales
pub mod Catalog
pub mod Accounts
pub mod System
pub mod Http
mod Tests
