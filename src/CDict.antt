-- ===== src/CDict.antt =====
-- The chained hash table lib_hustngx/nginx/src/core/c_dict.c.
pub mod Table
pub mod Chain
pub mod Resize
pub mod Assign
pub mod Laws
pub mod Remove
pub mod Iter
pub mod Size
pub mod Members
pub mod Count
