-- ===== src/DeepCopy.antt =====
-- api/v1alpha1/zz_generated.deepcopy.go: the deep copies of the resource, on a memory that shows
-- which references they share.
pub mod Heap
pub mod Copier
pub mod Structs
pub mod Copies
pub mod Objects
pub mod Read
pub mod Laws
pub mod Apart
pub mod Results
