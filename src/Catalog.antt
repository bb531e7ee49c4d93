-- ===== src/Catalog.antt =====
-- The commands of app/modules/products/use_cases.py and app/modules/warehouses/use_cases.py that
-- write.
pub mod Products
pub mod Warehouses
