-- ===== src/Ext.antt =====
-- Package ext/: helpers of the other packages.
pub mod JsonPath
